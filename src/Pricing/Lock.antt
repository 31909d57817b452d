-- ===== src/Pricing/Lock.antt =====
-- The flag of the page as a lock.
use nexra.Prelude.{
  ℕ, ◌+◌, ◌≡◌, refl, Bool, false, Option, List, [], ◌∷◌, Text, length, one_if, arith, Bool-cases,
  inl, inr, ◌==◌, String,
}
use nexra.SenderIds.{Answer, ok, failed, detail_or}
use nexra.Pricing.{
  Amount, Pricing, start, data_fetched, handle_buy_plan, close_purchase, confirm_upgrade,
  upgrade_answered, fetch_data,
}
use nexra.Pricing.Topup.{
  open_topup, close_topup, cancel_topup, set_topup_amount, handle_topup, submit_topup,
  intent_answered, paid, at_cases, at, open_window, fail_intent, verify_paid, cancel_window,
  complete_topup, fail_topup, verify_payment, reset_topup_state, popup_closed, Verdict, successful,
  already_completed, declined, unreachable, verified, closing_due, try_again, has_failed,
  length-remove_at,
}
use nexra.Pricing.Events.{
  Event, fetched, plan_chosen, purchase_closed, upgrade_confirmed, upgrade_ended, topup_opened,
  topup_closed, topup_cancelled, amount_typed, topup_submitted, intent_ended, window_paid,
  window_closed, verification_ended, timer_due, tried_again, step, run,
}

-- How many payments are under way.
abbrev pub under_way : Pricing → ℕ
under_way p = length p.registering + length p.popups + length p.verifying + p.closings + p.upgrading

abbrev pub IsLocked : Pricing → Type 0
IsLocked p = under_way p + one_if (has_failed p.txn_status) ≡ one_if p.is_processing

confirm_upgrade-IsLocked : (p : Pricing) → IsLocked p → IsLocked (confirm_upgrade p)
unfolding confirm_upgrade
confirm_upgrade-IsLocked p v = ground (arith, v)

upgrade_answered-IsLocked :
    (message : String) (answer : Answer) (p : Pricing)
    → IsLocked p
    → (p.upgrading == 0) ≡ false
    → IsLocked (upgrade_answered message answer p)
unfolding upgrade_answered fetch_data
upgrade_answered-IsLocked message ok p v h = ground (arith, v, h)
upgrade_answered-IsLocked message (failed detail) p v h = ground (arith, v, h)

data_fetched-IsLocked :
    (prices entries money : Option Text) (p : Pricing)
    → IsLocked p
    → IsLocked (data_fetched prices entries money p)
unfolding data_fetched
data_fetched-IsLocked prices entries money p v = ground (arith, v)

module _ (parse : Text → Option Amount) where
  submit_topup-IsLocked :
      (email loaded : Bool) (reference : ℕ) (p : Pricing)
      → IsLocked p
      → IsLocked (submit_topup parse email loaded reference p)
  unfolding submit_topup handle_topup
  submit_topup-IsLocked email loaded reference p v = ground (arith, v)

intent_answered-IsLocked :
    (i : ℕ) (answer : Answer) (p : Pricing) → IsLocked p → IsLocked (intent_answered i answer p)
unfolding intent_answered
intent_answered-IsLocked i ok p v =
    at_cases IsLocked p.registering i (open_window i) p v
      (λ x here. ground (arith, v, length-remove_at p.registering i here))
intent_answered-IsLocked i (failed detail) p v =
    at_cases IsLocked p.registering i (fail_intent i) p v
      (λ x here. ground (arith, v, length-remove_at p.registering i here))

paid-IsLocked : (i reference : ℕ) (p : Pricing) → IsLocked p → IsLocked (paid i reference p)
unfolding paid verify_payment
paid-IsLocked i reference p v =
    at_cases IsLocked p.popups i (verify_paid i reference) p v
      (λ x here. ground (arith, v, length-remove_at p.popups i here))

popup_closed-IsLocked : (i : ℕ) (p : Pricing) → IsLocked p → IsLocked (popup_closed i p)
unfolding popup_closed
popup_closed-IsLocked i p v =
    at_cases IsLocked p.popups i (cancel_window i) p v
      (λ x here. ground (arith, v, length-remove_at p.popups i here))

module _ (i : ℕ) (p : Pricing) (v : IsLocked p) where
  complete_topup-IsLocked : IsLocked (at p.verifying i (complete_topup i) p)
  complete_topup-IsLocked =
      at_cases IsLocked p.verifying i (complete_topup i) p v
        (λ x here. ground (arith, v, length-remove_at p.verifying i here))

  fail_topup-IsLocked : (message : String) → IsLocked (at p.verifying i (fail_topup message i) p)
  fail_topup-IsLocked message =
      at_cases IsLocked p.verifying i (fail_topup message i) p v
        (λ x here. ground (arith, v, length-remove_at p.verifying i here))

  verified-IsLocked : (verdict : Verdict) → IsLocked (verified i verdict p)
  unfolding verified
  verified-IsLocked successful = complete_topup-IsLocked
  verified-IsLocked already_completed = complete_topup-IsLocked
  verified-IsLocked (declined message) =
      fail_topup-IsLocked (detail_or message "Verification failed")
  verified-IsLocked unreachable = fail_topup-IsLocked "Verification failed. Please contact support."

closing_due-IsLocked : (p : Pricing) → IsLocked p → IsLocked (closing_due p)
unfolding closing_due reset_topup_state fetch_data
closing_due-IsLocked p v = ground (arith, v)

try_again-IsLocked : (p : Pricing) → IsLocked p → IsLocked (try_again p)
unfolding try_again reset_topup_state
try_again-IsLocked p v = ground (arith, v)

module _ (parse : Text → Option Amount) where
  step-IsLocked : (e : Event) (p : Pricing) → IsLocked p → IsLocked (step parse e p)
  unfolding step handle_buy_plan close_purchase open_topup close_topup cancel_topup set_topup_amount
  step-IsLocked (fetched prices entries money) p v = data_fetched-IsLocked prices entries money p v
  step-IsLocked (plan_chosen slug) p v = v
  step-IsLocked purchase_closed p v = ground (arith, v)
  step-IsLocked upgrade_confirmed p v = confirm_upgrade-IsLocked p v
  step-IsLocked (upgrade_ended message answer) p v = elim (Bool-cases (p.upgrading == 0)) [
    | inl idle ↦ rw (idle, step) v
    | inr busy ↦ rw (busy, step) (upgrade_answered-IsLocked message answer p v busy)
  ]
  step-IsLocked topup_opened p v = v
  step-IsLocked topup_closed p v = ground (arith, v)
  step-IsLocked topup_cancelled p v = v
  step-IsLocked (amount_typed t) p v = v
  step-IsLocked (topup_submitted email loaded reference) p v =
      submit_topup-IsLocked parse email loaded reference p v
  step-IsLocked (intent_ended i answer) p v = intent_answered-IsLocked i answer p v
  step-IsLocked (window_paid i reference) p v = paid-IsLocked i reference p v
  step-IsLocked (window_closed i) p v = popup_closed-IsLocked i p v
  step-IsLocked (verification_ended i verdict) p v = verified-IsLocked i p v verdict
  step-IsLocked timer_due p v = closing_due-IsLocked p v
  step-IsLocked tried_again p v = try_again-IsLocked p v

  run-IsLocked : (es : List Event) (p : Pricing) → IsLocked p → IsLocked (run parse es p)
  unfolding run
  run-IsLocked [] p v = v
  run-IsLocked (e ∷ es) p v = run-IsLocked es (step parse e p) (step-IsLocked e p v)

-- However amounts are read, from a fresh page and after any events in any order: the payments under
-- way (announced, in the window, being verified, waiting for the timer of a success, or a plan
-- being bought), together with a failure that is still shown, are one while the flag is set and
-- none while it is not.
pub run-start-IsLocked :
    (parse : Text → Option Amount) (es : List Event) → IsLocked (run parse es start)
run-start-IsLocked parse es = run-IsLocked parse es start refl
