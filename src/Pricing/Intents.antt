-- ===== src/Pricing/Intents.antt =====
-- The payment windows open for what the server has accepted.
use nexra.Prelude.{
  ℕ, zero, suc, ◌≡◌, ◌⊎◌, refl, Bool, not, ◌&&◌, Option, none, some, List, [], ◌∷◌, ◌++◌, Text, All,
  All-append, arith, Bool-cases, Option-cases, inl, inr, is_some, get_elem?, ◌==◌, String,
  All-get_elem?, subst, sym, ap, ◌∙◌, append-nil, append_assoc, map,
}
use nexra.SenderIds.{Answer, ok, failed, detail_or}
use nexra.Pricing.{
  Amount, Intent, Window, Call, pricing_list, ledger_list, balance_of, fetch_user, buy_plan,
  register_intent, open_iframe, verify, Pricing, start, data_fetched, handle_buy_plan,
  close_purchase, confirm_upgrade, upgrade_answered, fetch_data,
}
use nexra.Pricing.Topup.{
  at_cases, window_of, open_window, fail_intent, verify_paid, cancel_window, complete_topup,
  fail_topup, open_topup, close_topup, cancel_topup, set_topup_amount, handle_topup, topup_of,
  submit_topup, intent_answered, paid, verify_payment, reset_topup_state, popup_closed, Verdict,
  successful, already_completed, declined, unreachable, verified, closing_due, try_again, remove_at,
}
use nexra.Pricing.Events.{
  Event, fetched, plan_chosen, purchase_closed, upgrade_confirmed, upgrade_ended, topup_opened,
  topup_closed, topup_cancelled, amount_typed, topup_submitted, intent_ended, window_paid,
  window_closed, verification_ended, timer_due, tried_again, step, run,
}

abbrev Announces : Call → Intent → Type 0
Announces (register_intent sent) intent = sent ≡ intent
Announces _ intent = ⊥

-- The intent, amount and reference, was sent to the server.
abbrev pub IsRegistered : List Call → Intent → Type 0
IsRegistered [] intent = ⊥
IsRegistered (c ∷ calls) intent = Announces c intent ⊎ IsRegistered calls intent

abbrev window_in : Call → List Window
window_in (open_iframe w) = w ∷ []
window_in _ = []

-- The windows that were opened, in order.
abbrev pub windows : List Call → List Window
windows [] = []
windows (c ∷ calls) = window_in c ++ windows calls

-- What the server accepts by an answer: the intent that it answers.
abbrev accepted_by : Option Intent → Answer → List Intent
accepted_by (some intent) ok = intent ∷ []
accepted_by _ _ = []

-- The intents that the server accepts in the course of a run, in order.
abbrev accepted_at : Event → Pricing → List Intent
accepted_at (intent_ended i answer) p = accepted_by (get_elem? p.registering i) answer
accepted_at _ p = []

pub accepted : (Text → Option Amount) → List Event → Pricing → List Intent
accepted parse [] p = []
accepted parse (e ∷ es) p = accepted_at e p ++ accepted parse es (step parse e p)

pub record Backed (calls : List Call) (registering granted : List Intent) : Type 0 where
  pub announced : All (IsRegistered calls) registering
  pub known : All (IsRegistered calls) granted
  pub opened : windows calls ≡ map window_of granted

abbrev Inv : List Intent → Pricing → Type 0
Inv granted p = Backed p.calls p.registering granted

windows-append : (xs ys : List Call) → windows (xs ++ ys) ≡ windows xs ++ windows ys
windows-append [] ys = refl
windows-append (c ∷ xs) ys =
    ap (λ t. window_in c ++ t) (windows-append xs ys)
    ∙ sym (append_assoc (window_in c) (windows xs) (windows ys))

map-append_one :
    (xs : List Intent) (k : Intent)
    → map window_of (xs ++ k ∷ []) ≡ map window_of xs ++ window_of k ∷ []
map-append_one [] k = refl
map-append_one (x ∷ xs) k = ap (λ t. window_of x ∷ t) (map-append_one xs k)

IsRegistered-append :
    (calls more : List Call) (intent : Intent)
    → IsRegistered calls intent
    → IsRegistered (calls ++ more) intent
IsRegistered-append [] more intent h = elim h [ ]
IsRegistered-append (c ∷ calls) more intent (inl e) = inl e
IsRegistered-append (c ∷ calls) more intent (inr h) = inr (IsRegistered-append calls more intent h)

IsRegistered-last :
    (calls : List Call) (intent : Intent)
    → IsRegistered (calls ++ register_intent intent ∷ []) intent
IsRegistered-last [] intent = inl refl
IsRegistered-last (c ∷ calls) intent = inr (IsRegistered-last calls intent)

All-weaken :
    {A : Type 0} (P Q : A → Type 0) (xs : List A) → ((x : A) → P x → Q x) → All P xs → All Q xs
All-weaken P Q [] f h = tt
All-weaken P Q (x ∷ xs) f h = (f x h.0, All-weaken P Q xs f h.1)

All-remove_at : (P : Intent → Type 0) (xs : List Intent) (i : ℕ) → All P xs → All P (remove_at xs i)
All-remove_at P [] i h = tt
All-remove_at P (x ∷ xs) zero h = h.1
All-remove_at P (x ∷ xs) (suc i) h = (h.0, All-remove_at P xs i h.1)

module _ (calls : List Call) (registering granted : List Intent)
    (v : Backed calls registering granted) where
  still :
      (c : Call) (xs : List Intent)
      → All (IsRegistered calls) xs
      → All (IsRegistered (calls ++ c ∷ [])) xs
  still c xs h =
      All-weaken (IsRegistered calls) (IsRegistered (calls ++ c ∷ [])) xs
        (λ k r. IsRegistered-append calls (c ∷ []) k r) h

  -- One more call that opens no window.
  Backed-call : (c : Call) → window_in c ≡ [] → Backed (calls ++ c ∷ []) registering granted
  Backed-call c h = record {
    announced = still c registering v.announced;
    known = still c granted v.known;
    opened =
        windows-append calls (c ∷ [])
        ∙ ap (λ t. windows calls ++ (t ++ [])) h
        ∙ append-nil (windows calls)
        ∙ v.opened;
  }

  Backed-fewer : (i : ℕ) → Backed calls (remove_at registering i) granted
  Backed-fewer i = record {
    announced = All-remove_at (IsRegistered calls) registering i v.announced;
    known = v.known;
    opened = v.opened;
  }

  Backed-register :
      (k : Intent) → Backed (calls ++ register_intent k ∷ []) (k ∷ registering) granted
  Backed-register k =
      let w = Backed-call (register_intent k) refl in
      record {
        announced = (IsRegistered-last calls k, w.announced);
        known = w.known;
        opened = w.opened;
      }

  Backed-open :
      (i : ℕ) (k : Intent)
      → get_elem? registering i ≡ some k
      → Backed
          (calls ++ open_iframe (window_of k) ∷ [])
          (remove_at registering i)
          (granted ++ k ∷ [])
  Backed-open i k here =
      let c = open_iframe (window_of k) in
      let P = IsRegistered (calls ++ c ∷ []) in
      let mine : All P (k ∷ []) = (
        IsRegistered-append calls (c ∷ []) k
            (All-get_elem? (IsRegistered calls) registering i v.announced here),
        tt,
      ) in
      record {
        announced = All-remove_at P registering i (still c registering v.announced);
        known = All-append P granted (k ∷ []) (still c granted v.known) mine;
        opened =
            windows-append calls (c ∷ [])
            ∙ ap (λ t. t ++ window_of k ∷ []) v.opened
            ∙ sym (map-append_one granted k);
      }

zero_or_suc : (n : ℕ) → (n ≡ 0) ⊎ ((m : ℕ) × (n ≡ suc m))
zero_or_suc zero = inl refl
zero_or_suc (suc m) = inr (m, refl)

-- What the events that get no answer to an intent keep.
module _ (granted : List Intent) where
  fetch_data-Inv : (p : Pricing) → Inv granted p → Inv granted (fetch_data p)
  unfolding fetch_data
  fetch_data-Inv p v =
      let one = Backed-call p.calls p.registering granted v pricing_list refl in
      let two = Backed-call _ p.registering granted one ledger_list refl in
      Backed-call _ p.registering granted two balance_of refl

  topup_of-Inv :
      (amount : Option Amount) (loaded : Bool) (reference : ℕ) (p : Pricing)
      → Inv granted p
      → Inv granted (topup_of amount loaded reference p)
  topup_of-Inv none loaded reference p v = v
  topup_of-Inv (some amount) loaded reference p v = elim (Bool-cases amount.is_positive) [
    | inr free ↦ rw free v
    | inl positive ↦ rw positive (elim (Bool-cases loaded) [
      | inr missing ↦ rw missing v
      | inl there ↦ rw there (Backed-register p.calls p.registering granted v _)
    ])
  ]

  submit_topup-Inv :
      (parse : Text → Option Amount) (email loaded : Bool) (reference : ℕ) (p : Pricing)
      → Inv granted p
      → Inv granted (submit_topup parse email loaded reference p)
  unfolding submit_topup handle_topup
  submit_topup-Inv parse email loaded reference p v =
      elim (Bool-cases
        (p.show_topup_modal && (not (is_some p.txn_status) && not p.is_processing))) [
          | inr hidden ↦ rw (hidden, submit_topup) v
          | inl shown ↦
              rw (shown, submit_topup)
                (elim (Bool-cases email) [
                  | inr missing ↦ rw missing v
                  | inl there ↦ rw there (topup_of-Inv (parse p.topup_amount) loaded reference p v)
                ])
        ]

  confirm_upgrade-Inv : (p : Pricing) → Inv granted p → Inv granted (confirm_upgrade p)
  unfolding confirm_upgrade
  confirm_upgrade-Inv p v = elim (Bool-cases p.is_processing) [
    | inl busy ↦ rw (busy, confirm_upgrade) v
    | inr free ↦
        rw (free, confirm_upgrade)
          (elim (Option-cases p.confirm_purchase) [
            | inl closed ↦ rw closed v
            | inr (slug, shown) ↦
                rw shown (Backed-call p.calls p.registering granted v (buy_plan slug) refl)
          ])
  ]

  upgrade_answered-Inv :
      (message : String) (answer : Answer) (p : Pricing)
      → Inv granted p
      → Inv granted (upgrade_answered message answer p)
  unfolding upgrade_answered
  upgrade_answered-Inv message ok p v =
      Backed-call _ p.registering granted (fetch_data-Inv p v) fetch_user refl
  upgrade_answered-Inv message (failed detail) p v = v

  -- An event that leaves the requests as they are.
  Inv-same :
      (p q : Pricing)
      → q.calls ≡ p.calls
      → q.registering ≡ p.registering
      → Inv granted p
      → Inv granted q
  Inv-same p q e f v = rw (e, f) v

  module _ (i : ℕ) (p : Pricing) (v : Inv granted p) where
    paid-Inv : (reference : ℕ) → Inv granted (paid i reference p)
    unfolding paid verify_payment
    paid-Inv reference =
        at_cases (Inv granted) p.popups i (verify_paid i reference) p v
          (λ k here. Backed-call p.calls p.registering granted v (verify reference) refl)

    popup_closed-Inv : Inv granted (popup_closed i p)
    unfolding popup_closed
    popup_closed-Inv = at_cases (Inv granted) p.popups i (cancel_window i) p v (λ k here. v)

    verified-Inv : (verdict : Verdict) → Inv granted (verified i verdict p)
    unfolding verified
    verified-Inv successful =
        at_cases (Inv granted) p.verifying i (complete_topup i) p v (λ k here. v)
    verified-Inv already_completed =
        at_cases (Inv granted) p.verifying i (complete_topup i) p v (λ k here. v)
    verified-Inv (declined message) =
        at_cases (Inv granted) p.verifying i
          (fail_topup (detail_or message "Verification failed") i) p v (λ k here. v)
    verified-Inv unreachable =
        at_cases (Inv granted) p.verifying i
          (fail_topup "Verification failed. Please contact support." i) p v (λ k here. v)

  closing_due-Inv : (p : Pricing) → Inv granted p → Inv granted (closing_due p)
  unfolding closing_due reset_topup_state
  closing_due-Inv p v = elim (zero_or_suc p.closings) [
    | inl none_due ↦ rw (none_due, closing_due) v
    | inr (n, due) ↦ rw (due, closing_due) (fetch_data-Inv (record p { closings = n }) v)
  ]

plus : (granted : List Intent) (p : Pricing) → Inv granted p → Inv (granted ++ []) p
plus granted p v = subst (λ g. Inv g p) (sym (append-nil granted)) v

module _ (granted : List Intent) (i : ℕ) (p : Pricing) (v : Inv granted p) where
  open_window-Inv :
      (found : Option Intent)
      → get_elem? p.registering i ≡ found
      → Inv (granted ++ accepted_by found ok) (elim found [ none ↦ p | some k ↦ open_window i k p ])
  open_window-Inv none gone = plus granted p v
  open_window-Inv (some k) here = Backed-open p.calls p.registering granted v i k here

  fail_intent-Inv :
      (found : Option Intent) (detail : Option String)
      → Inv
          (granted ++ accepted_by found (failed detail))
          (elim found [ none ↦ p | some k ↦ fail_intent i k p ])
  fail_intent-Inv none detail = plus granted p v
  fail_intent-Inv (some k) detail =
      plus granted (fail_intent i k p) (Backed-fewer p.calls p.registering granted v i)

  intent_answered-Inv :
      (answer : Answer)
      → Inv (granted ++ accepted_by (get_elem? p.registering i) answer) (intent_answered i answer p)
  unfolding intent_answered
  intent_answered-Inv ok = open_window-Inv (get_elem? p.registering i) refl
  intent_answered-Inv (failed detail) = fail_intent-Inv (get_elem? p.registering i) detail

module _ (parse : Text → Option Amount) where
  step-Inv :
      (granted : List Intent) (e : Event) (p : Pricing)
      → Inv granted p
      → Inv (granted ++ accepted_at e p) (step parse e p)
  unfolding step handle_buy_plan close_purchase open_topup close_topup cancel_topup set_topup_amount
      data_fetched try_again reset_topup_state
  step-Inv granted (fetched prices entries money) p v =
      plus granted (step parse (fetched prices entries money) p)
        (Inv-same granted p (data_fetched prices entries money p) (ground arith) (ground arith) v)
  step-Inv granted (plan_chosen slug) p v = plus granted (step parse (plan_chosen slug) p) (v)
  step-Inv granted purchase_closed p v =
      plus granted (step parse purchase_closed p)
        (Inv-same granted p (close_purchase p) (ground arith) (ground arith) v)
  step-Inv granted upgrade_confirmed p v =
      plus granted (step parse upgrade_confirmed p) (confirm_upgrade-Inv granted p v)
  step-Inv granted (upgrade_ended message answer) p v =
      plus granted (step parse (upgrade_ended message answer) p)
        (elim (Bool-cases (p.upgrading == 0)) [
          | inl idle ↦ rw (idle, step) v
          | inr busy ↦ rw (busy, step) (upgrade_answered-Inv granted message answer p v)
        ])
  step-Inv granted topup_opened p v = plus granted (step parse topup_opened p) (v)
  step-Inv granted topup_closed p v =
      plus granted (step parse topup_closed p)
        (Inv-same granted p (close_topup p) (ground arith) (ground arith) v)
  step-Inv granted topup_cancelled p v = plus granted (step parse topup_cancelled p) (v)
  step-Inv granted (amount_typed t) p v = plus granted (step parse (amount_typed t) p) (v)
  step-Inv granted (topup_submitted email loaded reference) p v =
      plus granted (step parse (topup_submitted email loaded reference) p)
        (submit_topup-Inv granted parse email loaded reference p v)
  step-Inv granted (intent_ended i answer) p v = intent_answered-Inv granted i p v answer
  step-Inv granted (window_paid i reference) p v =
      plus granted (step parse (window_paid i reference) p) (paid-Inv granted i p v reference)
  step-Inv granted (window_closed i) p v =
      plus granted (step parse (window_closed i) p) (popup_closed-Inv granted i p v)
  step-Inv granted (verification_ended i verdict) p v =
      plus granted (step parse (verification_ended i verdict) p)
        (verified-Inv granted i p v verdict)
  step-Inv granted timer_due p v =
      plus granted (step parse timer_due p) (closing_due-Inv granted p v)
  step-Inv granted tried_again p v =
      plus granted (step parse tried_again p)
        (Inv-same granted p (try_again p) (ground arith) (ground arith) v)

  run-Inv :
      (granted : List Intent) (es : List Event) (p : Pricing)
      → Inv granted p
      → Inv (granted ++ accepted parse es p) (run parse es p)
  unfolding run accepted
  run-Inv granted [] p v = plus granted p v
  run-Inv granted (e ∷ es) p v =
      let more = accepted_at e p in
      subst (λ g. Inv g (run parse es (step parse e p)))
        (append_assoc granted more (accepted parse es (step parse e p)))
        (run-Inv (granted ++ more) es (step parse e p) (step-Inv granted e p v))

-- However amounts are read, from a fresh page and after any events in any order: the payment
-- windows that were opened are, one for one and in order, those of the intents that the server has
-- accepted, each for the intent's amount in pesewas and with its reference; and each of these
-- intents was sent to the server.
pub run-start-Backed :
    (parse : Text → Option Amount) (es : List Event)
    → (windows (run parse es start).calls ≡ map window_of (accepted parse es start))
      × All (IsRegistered (run parse es start).calls) (accepted parse es start)
run-start-Backed parse es =
    let v = run-Inv parse [] es start (record { announced = tt; known = tt; opened = refl }) in
    (v.opened, v.known)
