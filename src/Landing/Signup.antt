-- ===== src/Landing/Signup.antt =====
-- `handleSubmit`, the form of the paid waitlist. The payment pop-up and the sheet that keeps the
-- entries are outside: what they answer is `Outcome`. `sent` logs the entries sent to the sheet.
use nexra.Prelude.{
  ℕ, ◌+◌, ◌≡◌, refl, String, Bool, true, false, not, ◌||◌, ◌&&◌, Option, List, [], ◌∷◌, ◌++◌, Text,
  is_empty, includes, if◌then◌else◌, arith, length, one_if, length-append,
}

pub record Form : Type 0 where
  pub email : Text
  pub full_name : Option Text
  pub company_name : Option Text

-- What is charged: 50 GHS in pesewas.
pub record Charge : Type 0 where
  pub email : Text
  pub amount : ℕ

pub record Entry : Type 0 where
  pub email : Text
  pub name : Option Text
  pub company : Option Text
  pub paystack_ref : Text

pub data Kind : Type 0 where
  success error : Kind

pub record Signup : Type 0 where
  pub loading : Bool
  pub disabled : Bool
  pub waitlist_count : ℕ
  pub cleared : Bool
  pub toasts : List (String × Kind)
  pub charges : List Charge
  pub sent : List Entry

abbrev show_toast : String → Kind → Signup → Signup
show_toast message kind s = record s { toasts = s.toasts ++ (message, kind) ∷ [] }

abbrev start_loading : Signup → Signup
start_loading s = record s { loading = true; disabled = true }

abbrev stop_loading : Signup → Signup
stop_loading s = record s { loading = false; disabled = false }

abbrev invalid_email : String
invalid_email = "Please enter a valid email address"

abbrev no_payment : String
no_payment = "Payment system is currently unavailable. Please refresh and try again."

-- Up to the pop-up; `has_paystack` says whether its script has been loaded. The result says whether
-- the pop-up is open.
pub open_payment : Bool → Form → Signup → Signup × Bool
open_payment has_paystack form s =
    if is_empty form.email || not (includes form.email b'@')
    then (show_toast invalid_email error s, false)
    else if not has_paystack
    then (stop_loading (show_toast no_payment error (start_loading s)), false)
    else (
      record (start_loading s) {
        charges = s.charges ++ record { email = form.email; amount = 5000 } ∷ [];
      },
      true,
    )

-- What happens to the pop-up: it is paid, with a reference, and the sheet is reached or not; or it
-- is closed.
pub data Outcome : Type 0 where
  paid : (reference : Text) (reached : Bool) → Outcome
  closed : Outcome

pub after_payment : Form → Outcome → Signup → Signup
after_payment form (paid reference true) s =
    stop_loading (record (show_toast "🎉 Payment successful! You're on the list." success s) {
      sent =
          s.sent
          ++ record {
            email = form.email;
            name = form.full_name;
            company = form.company_name;
            paystack_ref = reference;
          }
            ∷ [];
      cleared = true;
      waitlist_count = s.waitlist_count + 1;
    })
after_payment form (paid reference false) s = stop_loading (
    show_toast "Payment succeeded, but we had trouble saving your details. Please contact support."
      error s)
after_payment form closed s = stop_loading (show_toast "Payment cancelled." error s)

-- The whole handler, once the pop-up is over.
pub handle_submit : Bool → Form → Outcome → Signup → Signup
unfolding open_payment after_payment
handle_submit has_paystack form outcome s =
    let (shown, is_open) = open_payment has_paystack form s in
    if is_open then after_payment form outcome shown else shown

abbrev is_saved : Outcome → Bool
is_saved (paid reference reached) = reached
is_saved closed = false

-- The form is accepted: the address has an @ and the payment script is there.
abbrev pub accepted : Bool → Form → Bool
accepted has_paystack form = includes form.email b'@' && has_paystack

includes-nonempty : (t : Text) (a : ℕ) → includes t a ≡ true → is_empty t ≡ false
includes-nonempty [] a h = ground (arith, h)
includes-nonempty (c ∷ t) a h = refl

one_more :
    (toasts : List (String × Kind)) (t : String × Kind)
    → length (toasts ++ t ∷ []) ≡ length toasts + 1
one_more toasts t = omega (arith, length-append toasts (t ∷ []))

-- Whatever the form holds and however the pop-up ends, from a free button: the button is free
-- again, one toast is shown, one charge of 5000 pesewas is asked for exactly when the form is
-- accepted (an address with an @, and the payment script loaded), and the count goes up by one
-- exactly when it is accepted, paid and the sheet reached.
pub handle_submit-charges :
    (has_paystack : Bool) (form : Form) (outcome : Outcome) (s : Signup)
    → s.disabled ≡ false
    → ((handle_submit has_paystack form outcome s).disabled ≡ false)
      × (length (handle_submit has_paystack form outcome s).toasts ≡ length s.toasts + 1)
      × ((handle_submit has_paystack form outcome s).charges ≡ (
          if accepted has_paystack form
          then s.charges ++ record { email = form.email; amount = 5000 } ∷ []
          else s.charges))
      × ((handle_submit has_paystack form outcome s).waitlist_count
          ≡ s.waitlist_count + one_if (accepted has_paystack form && is_saved outcome))
unfolding handle_submit open_payment after_payment
handle_submit-charges p form (paid reference true) s h = ground (
  arith,
  h,
  one_more s.toasts (invalid_email, error),
  one_more s.toasts (no_payment, error),
  one_more s.toasts ("🎉 Payment successful! You're on the list.", success),
  includes-nonempty form.email b'@',
)
handle_submit-charges p form (paid reference false) s h = ground (
  arith,
  h,
  one_more s.toasts (invalid_email, error),
  one_more s.toasts (no_payment, error),
  one_more s.toasts
      ("Payment succeeded, but we had trouble saving your details. Please contact support.", error),
  includes-nonempty form.email b'@',
)
handle_submit-charges p form closed s h = ground (
  arith,
  h,
  one_more s.toasts (invalid_email, error),
  one_more s.toasts (no_payment, error),
  one_more s.toasts ("Payment cancelled.", error),
  includes-nonempty form.email b'@',
)
