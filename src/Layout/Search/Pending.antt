-- ===== src/Layout/Search/Pending.antt =====
-- What the search of the dashboard asks the server for.
use nexra.Prelude.{
  ℕ, zero, suc, ◌+◌, ◌≡◌, refl, sym, subst, ◌∙◌, Bool, true, false, Bool-cases, inl, inr, Option,
  none, some, List, [], ◌∷◌, Text, text_eq, text_eq_iff, trim, is_empty, All, All-append,
  if◌then◌else◌, arith,
}
use nexra.Layout.Search.{
  Found, nothing_found, Search, start, set_query, open_search, close_search, focus_of, focus_due,
  fetch_results, search_due, answer_of, answered, navigate_to, Event, pressed_k, pressed_escape,
  focus_timer, search_timer, typed, picked, ended, step, run,
}

abbrev pub IsWorded : Text → Type 0
IsWorded q = is_empty (trim q) ≡ false

-- The pending timer, if any, is the one of the text in the input of the open palette.
abbrev pub IsTimed : Option Text → Bool → Text → Type 0
IsTimed none is_open query = Unit
IsTimed (some q) is_open query = (q ≡ query) × IsWorded q × (is_open ≡ true)

-- A closed palette has an empty input, too.
abbrev pub IsOrderly : Search → Type 0
IsOrderly p =
    IsTimed p.timer p.is_open p.query × (p.is_open ≡ false → p.query ≡ []) × All IsWorded p.requests

set_query-IsOrderly :
    (q : Text) (p : Search) → p.is_open ≡ true → IsOrderly p → IsOrderly (set_query q p)
unfolding set_query
set_query-IsOrderly q p o v = elim (Bool-cases (text_eq q p.query)) [
  | inl same ↦ rw (same, set_query) v
  | inr new ↦ elim (Bool-cases (is_empty (trim q))) [
    | inl blank ↦ rw (new, blank, set_query) (tt, λ c. ground (arith, o, c), v.2)
    | inr worded ↦ rw (new, worded, set_query) ((refl, worded, o), λ c. ground (arith, o, c), v.2)
  ]
]

-- With nothing in the input, no timer is pending.
empty-timer : (t : Option Text) (b : Bool) (s : Text) → s ≡ [] → IsTimed t b s → t ≡ none
unfolding trim
empty-timer none b s e v = refl
empty-timer (some q) b s e v = absurd (ground (arith, subst IsWorded (v.0 ∙ e) v.1))

-- What closing does to an open palette.
abbrev shut : Search → Search
shut p = set_query [] (record p { is_open = false; results = nothing_found })

shut-IsOrderly : (p : Search) → IsOrderly p → IsOrderly (shut p)
unfolding set_query trim
shut-IsOrderly p v = elim (Bool-cases (text_eq [] p.query)) [
  | inl same ↦
      let e = sym ((text_eq_iff [] p.query).0 same) in
      let none_left = empty-timer p.timer p.is_open p.query e v.0 in
      rw (same, set_query) (subst (λ t. IsTimed t false p.query) (sym none_left) tt, λ c. e, v.2)
  | inr new ↦ rw (new, set_query) (tt, λ c. refl, v.2)
]

if-IsOrderly :
    (b : Bool) (x y : Search)
    → (b ≡ true → IsOrderly x)
    → IsOrderly y
    → IsOrderly (if b then x else y)
if-IsOrderly true x y f v = f refl
if-IsOrderly false x y f v = v

close_search-IsOrderly : (p : Search) → IsOrderly p → IsOrderly (close_search p)
unfolding close_search
close_search-IsOrderly p v = if-IsOrderly p.is_open (shut p) p (λ o. shut-IsOrderly p v) v

focus_of-IsOrderly : (n : ℕ) (p : Search) → IsOrderly p → IsOrderly (focus_of n p)
unfolding focus_of
focus_of-IsOrderly zero p v = v
focus_of-IsOrderly (suc n) p v = v

fetch_results-IsOrderly :
    (t : Option Text) (p : Search)
    → IsTimed t p.is_open p.query
    → IsOrderly p
    → IsOrderly (fetch_results t p)
unfolding fetch_results
fetch_results-IsOrderly none p h v = v
fetch_results-IsOrderly (some q) p h v =
    (tt, v.1, All-append IsWorded p.requests (q ∷ []) v.2 (h.1, tt))

answer_of-IsOrderly :
    (n : ℕ) (a : Option Found) (p : Search) → IsOrderly p → IsOrderly (answer_of n a p)
unfolding answer_of
answer_of-IsOrderly zero a p v = v
answer_of-IsOrderly (suc n) a p v = v

IsTimed-open : (t : Option Text) (b : Bool) (s : Text) → IsTimed t b s → IsTimed t true s
IsTimed-open none b s v = tt
IsTimed-open (some q) b s v = (v.0, v.1, refl)

open_search-IsOrderly : (p : Search) → IsOrderly p → IsOrderly (open_search p)
unfolding open_search
open_search-IsOrderly p v =
    if-IsOrderly p.is_open p (record p { is_open = true; focusing = p.focusing + 1 }) (λ o. v)
      (IsTimed-open p.timer p.is_open p.query v.0, λ c. ground (arith, c), v.2)

step-IsOrderly : (e : Event) (p : Search) → IsOrderly p → IsOrderly (step e p)
unfolding step focus_due search_due answered navigate_to
step-IsOrderly pressed_k p v = open_search-IsOrderly p v
step-IsOrderly pressed_escape p v = close_search-IsOrderly p v
step-IsOrderly focus_timer p v = focus_of-IsOrderly p.focusing p v
step-IsOrderly search_timer p v = fetch_results-IsOrderly p.timer p v.0 v
step-IsOrderly (typed q) p v =
    if-IsOrderly p.is_open (set_query q p) p (λ o. set_query-IsOrderly q p o v) v
step-IsOrderly (picked path) p v =
    if-IsOrderly p.is_open (navigate_to path p) p (λ o. close_search-IsOrderly p v) v
step-IsOrderly (ended a) p v = answer_of-IsOrderly p.in_flight a p v

run-IsOrderly : (es : List Event) (p : Search) → IsOrderly p → IsOrderly (run es p)
unfolding run
run-IsOrderly [] p v = v
run-IsOrderly (e ∷ es) p v = run-IsOrderly es (step e p) (step-IsOrderly e p v)

-- However its keys, timers and answers come, the search looks only for texts that are not blank;
-- its pending timer is the one of the text in the input of the open palette; and a closed palette
-- has an empty input.
pub run-start-IsOrderly : (es : List Event) → IsOrderly (run es start)
run-start-IsOrderly es = run-IsOrderly es start (tt, λ c. refl, tt)
