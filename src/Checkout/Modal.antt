-- ===== src/Checkout/Modal.antt =====
-- When the modal lets a broadcast start, over its whole state.
use nexra.Prelude.{
  ℕ, ◌-◌, ◌*◌, ◌≡◌, ◌<◌, ◌↔◌, inl, inr, refl, Bool, true, false, Bool-cases, Option-cases, [], ◌∷◌,
  Option, none, some, arith, if◌then◌else◌, is_some, any, leb,
}
use nexra.Checkout.{
  Campaign, Balance, Checkout, render_content, checkout_modal, render_balance, fetch_balance_start,
  fetch_balance_done, or_default, default_rate, failure, button, retry_check, total_sms_needed,
  render_payg, render_plan,
}
use nexra.Checkout.Doubles.{times, times-zero}
use nexra.Checkout.Reading.{can_send, is_short, confirms_with, buttons_of}

-- A body with an enabled button that starts a broadcast is shown only in an open modal with a
-- campaign, after a check that has ended without an error and has loaded a balance.
pub can_send-needs :
    (is_open : Bool) (c : Option Campaign) (s : Checkout)
    → can_send (checkout_modal is_open c s) ≡ true
    → (is_open ≡ true)
      × (is_some c ≡ true)
      × (s.loading ≡ false)
      × (s.error ≡ none)
      × (is_some s.balance ≡ true)
unfolding checkout_modal render_content
can_send-needs is_open none s h = ground arith
can_send-needs is_open (some c) s h = ground arith

-- One check from any state: afterwards a success shows the fetched balance, and a failure shows
-- the error with a retry and nothing else, also when an older balance is still held.
pub checkout_modal-fetch_balance_done :
    (c : Campaign) (answer : Option Balance) (s : Checkout)
    → checkout_modal true (some c) (fetch_balance_done answer (fetch_balance_start s))
      ≡ (elim answer [
        | none ↦
            failure "Could not verify wallet balance. Please check connection and try again."
              (button "Retry Check" retry_check ∷ [])
        | some b ↦ render_balance c b
      ])
unfolding checkout_modal render_content fetch_balance_start fetch_balance_done
checkout_modal-fetch_balance_done c none s = refl
checkout_modal-fetch_balance_done c (some b) s = refl

-- The plan's units that an organisation may use; one that pays as it goes has none.
abbrev pub plan_units : Balance → ℕ
plan_units b = if b.is_payg then 0 else or_default b.subscription_sms 0

pub render_payg-is_short_units :
    (recipients parts rate credits : ℕ)
    → (is_short (render_payg recipients parts rate credits) ≡ true)
      ↔ (credits < times (recipients * parts - 0) rate)
unfolding render_payg
render_payg-is_short_units recipients parts rate credits = ground arith

pub render_plan-is_short_units :
    (needed rate sub_sms sub_credits credits : ℕ)
    → (is_short (render_plan needed rate sub_sms sub_credits credits) ≡ true)
      ↔ (credits < times (needed - sub_sms) rate)
unfolding render_plan
render_plan-is_short_units needed rate sub_sms sub_credits credits =
    elim (Bool-cases (leb needed sub_sms)) [
      | inl covered ↦
          let rest : needed - sub_sms ≡ 0 = ground (arith, covered) in
          rw (covered, rest, times-zero rate, render_plan) (ground arith)
      | inr short ↦ ground (arith, short)
    ]

-- Whatever the organisation and the campaign, the body of the checkout reports a shortage exactly
-- when the wallet is less than the product, as a double, of the messages that the plan's units do
-- not reach and the rate in force.
pub render_balance-is_short :
    (c : Campaign) (b : Balance)
    → (is_short (render_balance c b) ≡ true) ↔ (
        or_default b.payg_credits 0
        < times (total_sms_needed c - plan_units b) (or_default b.payg_rate default_rate))
unfolding render_balance total_sms_needed
render_balance-is_short c b = elim (Bool-cases b.is_payg) [
  | inl payg ↦ rw (payg, render_balance) (render_payg-is_short_units _ _ _ _)
  | inr plan ↦ rw (plan, render_balance) (render_plan-is_short_units _ _ _ _ _)
]

payg-can_send :
    (recipients parts rate credits : ℕ)
    → any confirms_with (buttons_of (render_payg recipients parts rate credits))
      ≡ can_send (render_payg recipients parts rate credits)
unfolding render_payg
payg-can_send recipients parts rate credits = ground arith

plan-can_send :
    (needed rate sub_sms sub_credits credits : ℕ)
    → any confirms_with (buttons_of (render_plan needed rate sub_sms sub_credits credits))
      ≡ can_send (render_plan needed rate sub_sms sub_credits credits)
unfolding render_plan
plan-can_send needed rate sub_sms sub_credits credits = ground arith

balance-can_send :
    (c : Campaign) (b : Balance)
    → any confirms_with (buttons_of (render_balance c b)) ≡ can_send (render_balance c b)
unfolding render_balance
balance-can_send c b = elim (Bool-cases b.is_payg) [
  | inl payg ↦ rw (payg, render_balance) (payg-can_send _ _ _ _)
  | inr plan ↦ rw (plan, render_balance) (plan-can_send _ _ _ _ _)
]

content-can_send :
    (c : Campaign) (s : Checkout)
    → any confirms_with (buttons_of (render_content c s)) ≡ can_send (render_content c s)
unfolding render_content
content-can_send c s = elim (Bool-cases s.loading) [
  | inl busy ↦ rw (busy, render_content) refl
  | inr idle ↦
      rw (idle, render_content)
        (elim (Option-cases s.error) [
          | inr (message, e) ↦ rw (e, render_content) refl
          | inl fine ↦
              rw (fine, render_content)
                (elim (Option-cases s.balance) [
                  | inl unknown ↦ rw (unknown, render_content) refl
                  | inr (b, known) ↦ rw (known, render_content) (balance-can_send c b)
                ])
        ])
]

-- The buttons shown with an error start no broadcast.
pub buttons_of-can_send :
    (is_open : Bool) (c : Option Campaign) (s : Checkout)
    → any confirms_with (buttons_of (checkout_modal is_open c s))
      ≡ can_send (checkout_modal is_open c s)
unfolding checkout_modal
buttons_of-can_send is_open none s = refl
buttons_of-can_send false (some c) s = refl
buttons_of-can_send true (some c) s = content-can_send c s
