-- ===== src/Checkout/Tests.antt =====
-- The checkout at concrete inputs, amounts as doubles.
use nexra.Prelude.{◌-◌, ◌*◌, ◌^◌, ◌≤◌, ◌<◌, ◌≡◌, ◌↔◌, refl, true, false, none, some}
use nexra.Checkout.Doubles.{decimal, times, floor_quotient, round, exponent, nearest}
use nexra.Checkout.{
  Balance, Campaign, Checkout, default_rate, sms_parts, max_covered_recipients, render_payg,
  render_balance, checkout_modal, total_sms_needed,
}
use nexra.Checkout.Reading.{can_send, is_short}
use nexra.Checkout.Parts.{capacity, sms_parts_least}
use nexra.Checkout.Modal.{render_balance-is_short, plan_units}

-- 0.08 has 53 bits.
decimal_run : decimal 8 100 ≡ 5_764_607_523_034_235 * 2 ^ 1_018
unfolding decimal round exponent nearest
decimal_run = refl

-- A wallet of 2.32 GHS pays for 28 messages at 0.08, since 2.32 / 0.08 is under 29 as a double.
floor_quotient_run : floor_quotient (decimal 232 100) default_rate ≡ 28
unfolding floor_quotient default_rate decimal round exponent nearest
floor_quotient_run = refl

abbrev wallet : Balance
wallet = record {
  is_payg = true;
  payg_rate = none;
  payg_credits = some (decimal 280 100);
  subscription_sms = none;
  subscription_credits = none;
}

abbrev campaign : Campaign
campaign = record { id = 4; total_recipients = some 35; template_length = 20 }

sms_parts_least_example : (161 ≤ capacity 2) ↔ (sms_parts 161 ≤ 2)
sms_parts_least_example = sms_parts_least 161 2

-- 35 messages at 0.08 need more than 2.80 GHS as doubles: 2.8000000000000003.
exact_wallet_short : is_short (render_balance campaign wallet) ≡ true
unfolding render_balance sms_parts total_sms_needed render_payg default_rate decimal times round
    exponent nearest max_covered_recipients floor_quotient
exact_wallet_short = refl

render_balance-is_short_example :
    (is_short (render_balance campaign wallet) ≡ true)
    ↔ (decimal 280 100 < times (total_sms_needed campaign - plan_units wallet) default_rate)
unfolding decimal
render_balance-is_short_example = render_balance-is_short campaign wallet

abbrev checked : Checkout
checked = record {
  balance = some (record wallet { payg_credits = some (decimal 100 1) });
  loading = false;
  error = none;
}

checked-can_send : can_send (checkout_modal true (some campaign) checked) ≡ true
unfolding checkout_modal render_balance sms_parts total_sms_needed render_payg default_rate decimal
    times round exponent nearest max_covered_recipients floor_quotient
checked-can_send = refl
