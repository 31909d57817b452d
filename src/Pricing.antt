-- ===== src/Pricing.antt =====
-- nexra-dashboard/src/pages/PricingPage.js: the wallet's page, with its two payments: topping the
-- wallet up through the payment provider's window, and buying a plan. Both hold the flag
-- `is_processing` while they are under way. What is under way is part of the state (`registering`,
-- `popups`, `verifying`, `closings`, `upgrading`), and an event ends one such operation, in any
-- order. Response bodies are kept as texts. The text of an amount is read by a parameter
-- (`parseFloat`), amounts are doubles as in Checkout/Doubles, and the payment window calls one of its two callbacks once, as
-- its provider documents.
pub mod Topup
pub mod Events
pub mod Lock
pub mod Intents
mod Tests
use nexra.Prelude.{
  ℕ, zero, suc, ◌+◌, ◌*◌, ◌/◌, String, Bool, true, false, not, ◌&&◌, ◌||◌, Option, none, some, List,
  [], ◌∷◌, ◌++◌, Text, codes, text_eq, if◌then◌else◌, get_elem?, is_some,
}
use nexra.Checkout.Doubles.{one, times}
use nexra.Toasts.{Variant, success, error, info}
use nexra.Wizard.{Notice}
use nexra.SenderIds.{Answer, ok, failed, detail_or}

-- What `parseFloat` makes of a text: a double, in GHS, which is 0 where it is not positive.
pub record Amount : Type 0 where
  pub is_positive : Bool
  pub ghs : ℕ

-- A payment as it is announced to the server: its amount and its reference.
pub record Intent : Type 0 where
  pub ghs : ℕ
  pub reference : ℕ

-- A payment window: its amount in pesewas, and its reference.
pub record Window : Type 0 where
  pub pesewas : ℕ
  pub reference : ℕ

-- `Math.round(amount * 100)`: the whole number that is nearest to the product, a half upwards.
unfoldable pub pesewas_of : ℕ → ℕ
unfolding times
pesewas_of ghs = (2 * times 100 ghs + one) / (2 * one)

pub data Call : Type 0 where
  pricing_list ledger_list balance_of fetch_user : Call
  buy_plan : Text → Call
  register_intent : Intent → Call
  open_iframe : Window → Call
  verify : ℕ → Call

pub data TxnStatus : Type 0 where
  verifying succeeded failed_txn : TxnStatus

pub record Pricing : Type 0 where
  pub pricing : Text
  pub ledger : Text
  pub balance : Option Text
  pub loading : Bool
  pub show_topup_modal : Bool
  pub topup_amount : Text
  pub is_processing : Bool
  pub txn_status : Option TxnStatus
  pub confirm_purchase : Option Text
  pub registering : List Intent
  pub popups : List Intent
  pub verifying : List ℕ
  pub closings : ℕ
  pub upgrading : ℕ
  pub calls : List Call
  pub notices : List Notice

abbrev pub start : Pricing
start = record {
  pricing = [];
  ledger = [];
  balance = none;
  loading = true;
  show_topup_modal = false;
  topup_amount = codes "100";
  is_processing = false;
  txn_status = none;
  confirm_purchase = none;
  registering = [];
  popups = [];
  verifying = [];
  closings = 0;
  upgrading = 0;
  calls = [];
  notices = [];
}

abbrev pub notify : String → Variant → Pricing → Pricing
notify message variant p = record p {
  notices = p.notices ++ record { message = message; variant = variant } ∷ [];
}

abbrev pub call : Call → Pricing → Pricing
call c p = record p { calls = p.calls ++ c ∷ [] }

-- `fetchData`: three requests side by side; their answers are taken together or not at all.
pub fetch_data : Pricing → Pricing
fetch_data p = call balance_of (call ledger_list (call pricing_list p))

pub data_fetched : Option Text → Option Text → Option Text → Pricing → Pricing
data_fetched (some pricing) (some ledger) (some balance) p = record p {
  pricing = pricing;
  ledger = ledger;
  balance = some balance;
  loading = false;
}
data_fetched _ _ _ p = record p { loading = false }

-- Buying a plan: the dialog, then `confirmUpgrade` up to its request (the button is disabled while
-- something is under way), and what follows the answer.
pub handle_buy_plan : Text → Pricing → Pricing
handle_buy_plan slug p = record p { confirm_purchase = some slug }

pub close_purchase : Pricing → Pricing
close_purchase p = if p.is_processing then p else record p { confirm_purchase = none }

pub confirm_upgrade : Pricing → Pricing
confirm_upgrade p = if p.is_processing then p else elim p.confirm_purchase [
  | none ↦ p
  | some slug ↦
      call (buy_plan slug) (record p { is_processing = true; upgrading = suc p.upgrading })
]

abbrev pub pred : ℕ → ℕ
pred zero = zero
pred (suc n) = n

-- Who is signed in is fetched next to the data; the flag is freed after both.
pub upgrade_answered : String → Answer → Pricing → Pricing
unfolding fetch_data
upgrade_answered message ok p =
    record (call fetch_user
      (fetch_data (record (notify message success p) { confirm_purchase = none }))) {
        is_processing = false;
        upgrading = pred p.upgrading;
      }
upgrade_answered message (failed detail) p =
    record (notify (detail_or detail "Failed to purchase plan") error p) {
      is_processing = false;
      upgrading = pred p.upgrading;
    }
