-- ===== src/Pricing/Topup.antt =====
-- nexra-dashboard/src/pages/PricingPage.js: topping the wallet up.
use nexra.Prelude.{
  ℕ, zero, suc, String, Bool, true, false, not, ◌&&◌, Option, none, some, List, [], ◌∷◌, Text,
  if◌then◌else◌, get_elem?, is_some, length, arith, ◌≡◌, refl, Option-cases, inl, inr,
}
use nexra.Toasts.{success, error, info}
use nexra.SenderIds.{Answer, ok, failed, detail_or}
use nexra.Pricing.{
  Amount, Intent, Window, pesewas_of, Pricing, register_intent, open_iframe, verify, TxnStatus,
  verifying, succeeded, failed_txn, notify, call, fetch_data,
}

-- The entry at an index taken out.
abbrev pub remove_at {ℓ} : {A : Type ℓ} → List A → ℕ → List A
remove_at [] i = []
remove_at (x ∷ xs) zero = xs
remove_at (x ∷ xs) (suc i) = x ∷ remove_at xs i

pub length-remove_at {ℓ} :
    {A : Type ℓ} (xs : List A) (i : ℕ) {x : A}
    → get_elem? xs i ≡ some x
    → suc (length (remove_at xs i)) ≡ length xs
length-remove_at [] i h = absurd (ground arith)
length-remove_at (y ∷ ys) zero h = refl
length-remove_at (y ∷ ys) (suc i) h = omega (arith, length-remove_at ys i h)

unfoldable pub open_topup : Pricing → Pricing
open_topup p = record p { show_topup_modal = true }

-- The cross of the dialog, and its button "Cancel".
unfoldable pub close_topup : Pricing → Pricing
close_topup p = if p.is_processing then p else record p { show_topup_modal = false }

unfoldable pub cancel_topup : Pricing → Pricing
cancel_topup p = record p { show_topup_modal = false }

unfoldable pub set_topup_amount : Text → Pricing → Pricing
set_topup_amount t p = record p { topup_amount = t }

-- The part of `handleTopup` after the amount is read.
abbrev pub topup_of : Option Amount → (loaded : Bool) → ℕ → Pricing → Pricing
topup_of none loaded reference p = notify "Please enter a valid amount" error p
topup_of (some amount) loaded reference p =
    if not amount.is_positive
    then notify "Please enter a valid amount" error p
    else if not loaded
    then notify "Payment system is temporarily unavailable. Please refresh." error p
    else let intent : Intent = record { ghs = amount.ghs; reference = reference } in
      call (register_intent intent)
        (record p { is_processing = true; registering = intent ∷ p.registering })

-- `handleTopup` up to its request. `email` says whether the user has an address and `loaded` whether
-- the provider's script is there; `reference` is the drawn number.
unfoldable pub handle_topup : (Text → Option Amount) → (email loaded : Bool) → ℕ → Pricing → Pricing
handle_topup parse email loaded reference p =
    if not email
    then notify "User email not found. Please log in again." error p
    else topup_of (parse p.topup_amount) loaded reference p

-- The form is shown while there is no transaction, and its button is enabled while nothing is
-- under way.
unfoldable pub submit_topup : (Text → Option Amount) → (email loaded : Bool) → ℕ → Pricing → Pricing
unfolding handle_topup
submit_topup parse email loaded reference p =
    if p.show_topup_modal && (not (is_some p.txn_status) && not p.is_processing)
    then handle_topup parse email loaded reference p
    else p

-- The rest of `handleTopup` for the intent under way at `i`: its window opens, or it failed.
abbrev pub at {ℓ} : {A : Type ℓ} → List A → ℕ → (A → Pricing → Pricing) → Pricing → Pricing
at xs i handler p = elim (get_elem? xs i) [ none ↦ p | some x ↦ handler x p ]

-- What every call of the handler keeps, an answer keeps.
pub at_cases {ℓ κ} :
    {A : Type ℓ} (P : Pricing → Type κ) (xs : List A) (i : ℕ) (handler : A → Pricing → Pricing)
    (p : Pricing)
    → P p
    → ((x : A) → get_elem? xs i ≡ some x → P (handler x p))
    → P (at xs i handler p)
at_cases P xs i handler p v keep = elim (Option-cases (get_elem? xs i)) [
  | inl gone ↦ rw (gone, at) v
  | inr (x, here) ↦ rw (here, at) (keep x here)
]

-- The window's amount is reckoned anew, in pesewas.
unfoldable pub window_of : Intent → Window
unfolding pesewas_of
window_of intent = record { pesewas = pesewas_of intent.ghs; reference = intent.reference }

abbrev pub open_window : ℕ → Intent → Pricing → Pricing
open_window i intent p =
    call (open_iframe (window_of intent))
      (record p { registering = remove_at p.registering i; popups = intent ∷ p.popups })

abbrev pub fail_intent : ℕ → Intent → Pricing → Pricing
fail_intent i intent p =
    notify "Failed to initiate payment" error
      (record p { registering = remove_at p.registering i; is_processing = false })

unfoldable pub intent_answered : ℕ → Answer → Pricing → Pricing
intent_answered i ok p = at p.registering i (open_window i) p
intent_answered i (failed detail) p = at p.registering i (fail_intent i) p

-- `verifyPayment` up to its request, for the reference that the window's callback brings.
unfoldable pub verify_payment : ℕ → Pricing → Pricing
verify_payment reference p =
    call (verify reference)
      (record p { txn_status = some verifying; verifying = reference ∷ p.verifying })

-- The window's two callbacks.
abbrev pub verify_paid : ℕ → ℕ → Intent → Pricing → Pricing
verify_paid i reference intent p =
    verify_payment reference (record p { popups = remove_at p.popups i })

unfoldable pub paid : ℕ → ℕ → Pricing → Pricing
unfolding verify_payment
paid i reference p = at p.popups i (verify_paid i reference) p

abbrev pub cancel_window : ℕ → Intent → Pricing → Pricing
cancel_window i intent p =
    notify "Payment cancelled" info
      (record p { popups = remove_at p.popups i; is_processing = false })

unfoldable pub popup_closed : ℕ → Pricing → Pricing
popup_closed i p = at p.popups i (cancel_window i) p

-- What the answer to the verification says; `declined` has the message of another status.
pub data Verdict : Type 0 where
  successful already_completed : Verdict
  declined : Option String → Verdict
  unreachable : Verdict

abbrev pub fail_topup : String → ℕ → ℕ → Pricing → Pricing
fail_topup message i reference p =
    notify message error
      (record p { txn_status = some failed_txn; verifying = remove_at p.verifying i })

abbrev pub complete_topup : ℕ → ℕ → Pricing → Pricing
complete_topup i reference p = notify "Wallet topped up successfully!" success (record p {
  txn_status = some succeeded;
  verifying = remove_at p.verifying i;
  closings = suc p.closings;
})

-- The rest of `verifyPayment`.
unfoldable pub verified : ℕ → Verdict → Pricing → Pricing
verified i successful p = at p.verifying i (complete_topup i) p
verified i already_completed p = at p.verifying i (complete_topup i) p
verified i (declined message) p =
    at p.verifying i (fail_topup (detail_or message "Verification failed") i) p
verified i unreachable p =
    at p.verifying i (fail_topup "Verification failed. Please contact support." i) p

unfoldable pub reset_topup_state : Pricing → Pricing
reset_topup_state p = record p { txn_status = none; is_processing = false }

-- The timer of a success, two seconds later.
unfoldable pub closing_due : Pricing → Pricing
unfolding reset_topup_state fetch_data
closing_due p = elim p.closings [
  | zero ↦ p
  | suc n ↦ fetch_data (reset_topup_state (record p { show_topup_modal = false; closings = n }))
]

abbrev pub has_failed : Option TxnStatus → Bool
has_failed (some failed_txn) = true
has_failed _ = false

-- "Try Again" is shown after a failure.
unfoldable pub try_again : Pricing → Pricing
unfolding reset_topup_state
try_again p = if has_failed p.txn_status then reset_topup_state p else p
