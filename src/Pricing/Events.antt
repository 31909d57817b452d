-- ===== src/Pricing/Events.antt =====
-- nexra-dashboard/src/pages/PricingPage.js: what can happen on the page, in any order.
use nexra.Prelude.{ℕ, String, Bool, Option, List, [], ◌∷◌, Text, ◌==◌, if◌then◌else◌}
use nexra.SenderIds.{Answer}
use nexra.Pricing.{
  Amount, Pricing, data_fetched, handle_buy_plan, close_purchase, confirm_upgrade, upgrade_answered,
}
use nexra.Pricing.Topup.{
  open_topup, close_topup, cancel_topup, set_topup_amount, submit_topup, intent_answered, paid,
  popup_closed, Verdict, verified, closing_due, try_again,
}

pub data Event : Type 0 where
  fetched : Option Text → Option Text → Option Text → Event
  plan_chosen : Text → Event
  purchase_closed upgrade_confirmed : Event
  upgrade_ended : String → Answer → Event
  topup_opened topup_closed topup_cancelled : Event
  amount_typed : Text → Event
  topup_submitted : (email loaded : Bool) → ℕ → Event
  intent_ended : ℕ → Answer → Event
  window_paid : ℕ → ℕ → Event
  window_closed : ℕ → Event
  verification_ended : ℕ → Verdict → Event
  timer_due tried_again : Event

module _ (parse : Text → Option Amount) where
  unfoldable pub step : Event → Pricing → Pricing
  step (fetched prices entries money) p = data_fetched prices entries money p
  step (plan_chosen slug) p = handle_buy_plan slug p
  step purchase_closed p = close_purchase p
  step upgrade_confirmed p = confirm_upgrade p
  step (upgrade_ended message answer) p =
      if p.upgrading == 0 then p else upgrade_answered message answer p
  step topup_opened p = open_topup p
  step topup_closed p = close_topup p
  step topup_cancelled p = cancel_topup p
  step (amount_typed t) p = set_topup_amount t p
  step (topup_submitted email loaded reference) p = submit_topup parse email loaded reference p
  step (intent_ended i answer) p = intent_answered i answer p
  step (window_paid i reference) p = paid i reference p
  step (window_closed i) p = popup_closed i p
  step (verification_ended i verdict) p = verified i verdict p
  step timer_due p = closing_due p
  step tried_again p = try_again p

  unfoldable pub run : List Event → Pricing → Pricing
  run [] p = p
  run (e ∷ es) p = run es (step e p)
