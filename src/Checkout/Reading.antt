-- ===== src/Checkout/Reading.antt =====
-- Reading a rendered checkout: a labelled number, and whether an enabled button confirms.
use text.Mathlib.Text.{◌==◌ as str_eq}
use nexra.Prelude.{
  ℕ, String, Bool, false, ◌||◌, Option, none, some, List, [], ◌∷◌, if◌then◌else◌, any,
}
use nexra.Checkout.{View, panel, failure, confirm, Button}

abbrev figure_in : String → List (String × ℕ) → Option ℕ
figure_in k [] = none
figure_in k ((j, n) ∷ rest) = if str_eq j k then some n else figure_in k rest

abbrev pub figure : String → View → Option ℕ
figure k (panel title figures buttons) = figure_in k figures
figure k _ = none

abbrev pub confirms_with : Button → Bool
confirms_with b = elim b.action [ confirm use_payg ↦ b.enabled | _ ↦ false ]

-- Some enabled button starts a broadcast.
abbrev pub can_send : View → Bool
can_send (panel title figures buttons) = any confirms_with buttons
can_send _ = false

-- The body says that not everything can be sent.
abbrev pub is_short : View → Bool
is_short (panel title figures buttons) =
    str_eq title "Insufficient PAYG Balance" || str_eq title "Insufficient Wallet Credits"
is_short _ = false

abbrev pub buttons_of : View → List Button
buttons_of (panel title figures buttons) = buttons
buttons_of (failure message buttons) = buttons
buttons_of _ = []
