-- ===== src/Pricing/Tests.antt =====
-- A top-up that is paid and confirmed.
use nexra.Prelude.{◌≡◌, refl, true, Option, some, List, [], ◌∷◌, Text, All, map}
use nexra.Checkout.Doubles.{decimal, times, round, exponent, nearest}
use nexra.SenderIds.{ok}
use nexra.Pricing.{
  Amount, pesewas_of, start, register_intent, open_iframe, verify, balance_of, ledger_list,
  pricing_list,
}
use nexra.Pricing.Topup.{
  successful, closing_due, verified, paid, intent_answered, submit_topup, open_topup, window_of,
}
use nexra.Pricing.Events.{
  Event, topup_opened, topup_submitted, intent_ended, window_paid, verification_ended, timer_due,
  step, run,
}
use nexra.Pricing.Lock.{IsLocked, run-start-IsLocked}
use nexra.Pricing.Intents.{IsRegistered, windows, accepted, run-start-Backed}

-- Every text reads as a hundred cedis.
abbrev hundred : Amount
hundred = record { is_positive = true; ghs = decimal 100 1 }

abbrev parse : Text → Option Amount
parse t = some hundred

abbrev payment : List Event
payment =
    topup_opened
    ∷ topup_submitted true true 42
    ∷ intent_ended 0 ok
    ∷ window_paid 0 42
    ∷ verification_ended 0 successful
    ∷ timer_due
    ∷ []

payment-calls :
    (run parse payment start).calls
    ≡ register_intent (record { ghs = decimal 100 1; reference = 42 })
      ∷ open_iframe (record { pesewas = 10_000; reference = 42 })
      ∷ verify 42
      ∷ pricing_list
      ∷ ledger_list
      ∷ balance_of
      ∷ []
unfolding run step closing_due verified paid intent_answered submit_topup open_topup window_of
    pesewas_of decimal times round exponent nearest
payment-calls = refl

run-start-IsLocked_example : IsLocked (run parse payment start)
run-start-IsLocked_example = run-start-IsLocked parse payment

run-start-Backed_example :
    (windows (run parse payment start).calls ≡ map window_of (accepted parse payment start))
    × All (IsRegistered (run parse payment start).calls) (accepted parse payment start)
run-start-Backed_example = run-start-Backed parse payment
