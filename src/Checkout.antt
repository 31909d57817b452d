-- ===== src/Checkout.antt =====
-- nexra-dashboard/src/components/BroadcastCheckoutModal.js: the cost check before a broadcast.
-- An amount in GHS is a double, as Checkout/Doubles has it, and rounded as the code rounds it; counts
-- of messages and recipients are whole numbers.
pub mod Doubles
pub mod Reading
pub mod Parts
pub mod Modal
mod Tests
use nexra.Prelude.{
  ℕ, ◌+◌, ◌-◌, ◌*◌, ◌/◌, ◌≡◌, String, Bool, true, false, not, Option, none, some, List, [], ◌∷◌,
  min, ltb, leb, ◌==◌, if◌then◌else◌, get_or_else,
}
use nexra.Checkout.Doubles.{round, decimal, times, floor_quotient}

-- The answer of `/billing/balance`; a missing field is `none`.
pub record Balance : Type 0 where
  pub is_payg : Bool
  pub payg_rate : Option ℕ
  pub payg_credits : Option ℕ
  pub subscription_sms : Option ℕ
  pub subscription_credits : Option ℕ

-- The part of a campaign that the modal reads: recipients and length of the template.
pub record Campaign : Type 0 where
  pub id : ℕ
  pub total_recipients : Option ℕ
  pub template_length : ℕ

-- What a button does: `onConfirm(usePayg)`, `onClose`, `fetchBalance`, or the pricing page.
pub data Action : Type 0 where
  close retry_check go_to_pricing : Action
  confirm : Bool → Action

pub record Button : Type 0 where
  pub label : String
  pub enabled : Bool
  pub action : Action

-- A rendered body: its heading, the labelled numbers that it shows, and its buttons in order.
pub data View : Type 0 where
  hidden spinner blank : View
  failure : String → List Button → View
  panel : String → List (String × ℕ) → List Button → View

abbrev pub button : String → Action → Button
button label action = record { label = label; enabled = true; action = action }

-- `x || d` on a number: zero and a missing value both give `d`.
abbrev pub or_default : Option ℕ → ℕ → ℕ
or_default none d = d
or_default (some n) d = if n == 0 then d else n

-- 0.08 GHS.
unfoldable pub default_rate : ℕ
unfolding decimal
default_rate = decimal 8 100

unfoldable pub sms_parts : ℕ → ℕ
sms_parts len = if ltb 160 len then (len + 152) / 153 else if len == 0 then 0 else 1

pub total_sms_needed : Campaign → ℕ
total_sms_needed c = or_default c.total_recipients 0 * sms_parts c.template_length

pub max_covered_recipients : ℕ → ℕ → ℕ → ℕ
max_covered_recipients credits parts rate =
    if ltb 0 parts then floor_quotient credits (times parts rate) else 0

-- Case 1: an organisation that pays as it goes.
pub render_payg : ℕ → ℕ → ℕ → ℕ → View
unfolding max_covered_recipients
render_payg recipients parts rate credits =
    let needed = recipients * parts in
    let required = times needed rate in
    let covered = min recipients (max_covered_recipients credits parts rate) in
    if leb required credits
    then panel "Balance Check Passed"
        (("Recipients", recipients)
          ∷ ("SMS Parts Per Recipient", parts)
          ∷ ("Total SMS Units", needed)
          ∷ ("Rate", rate)
          ∷ ("Estimated Cost", required)
          ∷ ("Available PAYG Balance", credits)
          ∷ [])
        (button "Cancel" close ∷ button "Broadcast Now" (confirm true) ∷ [])
    else panel "Insufficient PAYG Balance"
        (("Required", required)
          ∷ ("Wallet", credits)
          ∷ ("Covered", covered)
          ∷ ("Remaining", recipients - covered)
          ∷ [])
        (record { label = "Send Covered"; enabled = not (covered == 0); action = confirm true }
          ∷ button "Top Up Wallet (Go to Wallet)" go_to_pricing
          ∷ button "Cancel & Go Back" close
          ∷ [])

pub max_payg_sms : ℕ → ℕ → ℕ
max_payg_sms credits rate = if ltb 0 rate then floor_quotient credits rate else 0

-- Case 2: an organisation with a plan, which may fall back on its wallet.
pub render_plan : ℕ → ℕ → ℕ → ℕ → ℕ → View
unfolding max_payg_sms
render_plan needed rate sub_sms sub_credits credits =
    let uncovered = needed - sub_sms in
    let required = times uncovered rate in
    let by_wallet = max_payg_sms credits rate in
    let sendable = sub_sms + by_wallet in
    if leb needed sub_sms
    then panel "Subscription Cover Valid"
        (("Total SMS Required", needed)
          ∷ ("Available Plan Credits", sub_sms)
          ∷ ("Plan Credits Value", sub_credits)
          ∷ [])
        (button "Cancel" close ∷ button "Broadcast Now" (confirm false) ∷ [])
    else if leb required credits
    then panel "Subscription Limit Exceeded"
        (("Total SMS Required", needed)
          ∷ ("Plan Credits Cover", sub_sms)
          ∷ ("PAYG Fallback Required", uncovered)
          ∷ ("Fallback Cost", required)
          ∷ ("Your PAYG Balance", credits)
          ∷ [])
        (button "Use PAYG Fallback (Send Entire Campaign)" (confirm true)
          ∷ button "Only Use Subscription" (confirm false)
          ∷ button "Cancel & Go Back" close
          ∷ [])
    else panel "Insufficient Wallet Credits"
        (("Total SMS Required", needed)
          ∷ ("Plan Credits Cover", sub_sms)
          ∷ ("PAYG Cover", by_wallet)
          ∷ ("Short Of", needed - sendable)
          ∷ ("Sendable", sendable)
          ∷ [])
        (record { label = "Send Covered"; enabled = not (sendable == 0); action = confirm true }
          ∷ button "Top Up Wallet (Go to Wallet)" go_to_pricing
          ∷ button "Cancel & Go Back" close
          ∷ [])

pub render_balance : Campaign → Balance → View
unfolding total_sms_needed
render_balance c b =
    let rate = or_default b.payg_rate default_rate in
    let credits = or_default b.payg_credits 0 in
    if b.is_payg
    then render_payg (or_default c.total_recipients 0) (sms_parts c.template_length) rate credits
    else render_plan (total_sms_needed c) rate (or_default b.subscription_sms 0)
        (or_default b.subscription_credits 0) credits

-- The state hooks of the modal.
pub record Checkout : Type 0 where
  pub balance : Option Balance
  pub loading : Bool
  pub error : Option String

abbrev pub initial : Checkout
initial = record { balance = none; loading = false; error = none }

-- `fetchBalance` up to its request, and after the answer; `none` is a failed request.
pub fetch_balance_start : Checkout → Checkout
fetch_balance_start s = record s { loading = true; error = none }

pub fetch_balance_done : Option Balance → Checkout → Checkout
fetch_balance_done (some b) s = record s { balance = some b; loading = false }
fetch_balance_done none s = record s {
  error = some "Could not verify wallet balance. Please check connection and try again.";
  loading = false;
}

pub render_content : Campaign → Checkout → View
unfolding render_balance
render_content c s = if s.loading then spinner else elim s.error [
  | some message ↦ failure message (button "Retry Check" retry_check ∷ [])
  | none ↦ elim s.balance [ none ↦ blank | some b ↦ render_balance c b ]
]

-- The whole component: nothing without a campaign.
pub checkout_modal : Bool → Option Campaign → Checkout → View
unfolding render_content
checkout_modal is_open none s = hidden
checkout_modal is_open (some c) s = if is_open then render_content c s else hidden
