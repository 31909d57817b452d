-- ===== src/Admin/Ledger.antt =====
-- nexra-dashboard/src/pages/AdminTransactionsPage.js: the ledger of all payments. Amounts are in
-- hundredths.
use nexra.Prelude.{
  ℕ, ◌+◌, ◌≤◌, ◌≡◌, refl, String, Bool, true, false, not, ◌&&◌, ◌||◌, Option, none, some, List, [],
  ◌∷◌, ◌++◌, Text, codes, text_eq, if◌then◌else◌, is_empty, filter, length, contains, arith,
}
use nexra.Toasts.{Variant, success, error}
use nexra.Wizard.{Notice}
use nexra.SenderIds.{Answer, ok, failed, detail_or}

pub record Transaction : Type 0 where
  pub source : Text
  pub category : Text
  pub direction : Text
  pub status : Text
  pub amount : Option ℕ
  pub reference : Option Text
  pub customer_email : Option Text
  pub customer_name : Option Text
  pub organization_name : Option Text
  pub description : Option Text

pub data TimeFilter : Type 0 where
  daily weekly monthly all_time custom : TimeFilter

-- The address of the request; an end of a custom range that is not given is left out.
abbrev dated : String → Text → String → Text
dated name [] time = []
dated name (c ∷ s) time = codes name ++ ((c ∷ s) ++ codes time)

pub transactions_url : TimeFilter → (start_date end_date : Text) → Text
transactions_url daily from to = codes "/billing/admin/transactions?days=1"
transactions_url weekly from to = codes "/billing/admin/transactions?days=7"
transactions_url monthly from to = codes "/billing/admin/transactions?days=30"
transactions_url all_time from to = codes "/billing/admin/transactions?all_time=true"
transactions_url custom from to =
    codes "/billing/admin/transactions?"
    ++ (dated "&start_date=" from "T00:00:00Z" ++ dated "&end_date=" to "T23:59:59Z")

abbrev or_empty : Option Text → Text
or_empty none = []
or_empty (some t) = t

abbrev matches : (Text → Text) → Text → Transaction → Bool
matches lower query tx =
    contains (lower (or_empty tx.reference)) query
    || (contains (lower (or_empty tx.customer_email)) query
        || (contains (lower (or_empty tx.customer_name)) query
            || (contains (lower (or_empty tx.organization_name)) query
                || contains (lower (or_empty tx.description)) query)))

-- The test of `filtered`; `lower` is `toLowerCase`.
pub is_listed : (Text → Text) → (source category search : Text) → Transaction → Bool
unfolding text_eq contains
is_listed lower source category search tx =
    if not (text_eq source (codes "all")) && not (text_eq tx.source source)
    then false
    else if not (text_eq category (codes "all")) && not (text_eq tx.category category)
    then false
    else if is_empty search
    then true
    else matches lower (lower search) tx

pub filtered : (Text → Text) → (source category search : Text) → List Transaction → List Transaction
unfolding is_listed
filtered lower source category search txs = filter (is_listed lower source category search) txs

abbrev pub succeeded : Transaction → Bool
succeeded tx = text_eq tx.status (codes "success")

abbrev pub is_credit : Transaction → Bool
is_credit tx = text_eq tx.direction (codes "credit") && succeeded tx

abbrev or_zero : Option ℕ → ℕ
or_zero none = 0
or_zero (some n) = n

abbrev pub amounts : List Transaction → ℕ
amounts [] = 0
amounts (tx ∷ txs) = or_zero tx.amount + amounts txs

-- `totalGHS` and `successCount` of the filtered transactions.
pub total_ghs : List Transaction → ℕ
unfolding text_eq
total_ghs txs = amounts (filter is_credit txs)

pub success_count : List Transaction → ℕ
unfolding text_eq
success_count txs = length (filter succeeded txs)

-- `AdjustBalanceModal`: its form, and `handleSubmit` from its start to its end. The amount goes out
-- as it was typed.
pub record AdjustModal : Type 0 where
  pub organization_id : Text
  pub amount : Text
  pub description : Text
  pub submitting : Bool
  pub is_open : Bool
  pub sent : List (Text × Text × Text)
  pub refreshes : ℕ
  pub notices : List Notice

abbrev notify : String → Variant → AdjustModal → AdjustModal
notify message variant p = record p {
  notices = p.notices ++ record { message = message; variant = variant } ∷ [];
}

pub handle_submit : Answer → AdjustModal → AdjustModal
handle_submit answer p =
    if is_empty p.organization_id || (is_empty p.amount || is_empty p.description)
    then notify "Please fill all fields" error p
    else let asked = record p {
      submitting = true;
      sent = p.sent ++ (p.organization_id, p.amount, p.description) ∷ [];
    } in
      elim answer [
        | ok ↦ record (notify "Balance adjusted successfully" success asked) {
          refreshes = p.refreshes + 1;
          is_open = false;
          submitting = false;
        }
        | failed detail ↦
            record (notify (detail_or detail "Failed to adjust balance") error asked) {
              submitting = false;
            }
      ]

amounts-filter-le :
    (p : Transaction → Bool) (txs : List Transaction) → amounts (filter p txs) ≤ amounts txs
amounts-filter-le p [] = omega arith
amounts-filter-le p (tx ∷ txs) = ground (arith, amounts-filter-le p txs)

amounts-split :
    (p q : Transaction → Bool) (txs : List Transaction)
    → amounts (filter q (filter p txs)) + amounts (filter q (filter (λ tx. not (p tx)) txs))
      ≡ amounts (filter q txs)
amounts-split p q [] = refl
amounts-split p q (tx ∷ txs) = ground (arith, amounts-split p q txs)

abbrev pub not_listed :
    (Text → Text) → (source category search : Text) → List Transaction → List Transaction
not_listed lower source category search txs =
    filter (λ tx. not (is_listed lower source category search tx)) txs

-- With `lower` for `toLowerCase` and any filters, the total of the listed transactions and the
-- total of the others add up to the total of all.
pub total_ghs-filtered :
    (lower : Text → Text) (source category search : Text) (txs : List Transaction)
    → total_ghs (filtered lower source category search txs)
        + total_ghs (not_listed lower source category search txs)
      ≡ total_ghs txs
unfolding total_ghs filtered
total_ghs-filtered lower source category search txs =
    amounts-split (is_listed lower source category search) is_credit txs
