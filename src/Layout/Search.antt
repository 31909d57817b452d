-- ===== src/Layout/Search.antt =====
-- nexra-dashboard/src/components/ui/CommandPalette.js: the search of the dashboard. The timers and
-- the requests in flight are part of the state, and an answer comes as an event.
mod Pending
mod Late
mod Tests
use nexra.Prelude.{
  ℕ, zero, suc, ◌+◌, Bool, true, false, ◌||◌, Option, none, some, List, [], ◌∷◌, ◌++◌, Text, codes,
  text_eq, trim, is_empty, ltb, if◌then◌else◌, length, not, one_if,
}

pub record Found : Type 0 where
  pub campaigns : List Text
  pub contacts : List Text
  pub segments : List Text

abbrev pub nothing_found : Found
nothing_found = record { campaigns = []; contacts = []; segments = [] }

-- `timer` is the text that the pending timer will look for, `focusing` counts the timers that put the
-- focus on the input, `thrown` those that found no input, and `requests` has all that was looked for.
pub record Search : Type 0 where
  pub is_open : Bool
  pub query : Text
  pub results : Found
  pub loading : Bool
  pub timer : Option Text
  pub in_flight : ℕ
  pub requests : List Text
  pub focusing : ℕ
  pub thrown : ℕ
  pub hash : List Text

abbrev pub start : Search
start = record {
  is_open = false;
  query = [];
  results = nothing_found;
  loading = false;
  timer = none;
  in_flight = 0;
  requests = [];
  focusing = 0;
  thrown = 0;
  hash = [];
}

-- `setQuery` with the effect on `query`, which runs when the text differs; the timer of the last
-- text is cleared.
pub set_query : Text → Search → Search
unfolding text_eq
set_query q p =
    if text_eq q p.query
    then p
    else if is_empty (trim q)
    then record p { query = q; results = nothing_found; loading = false; timer = none }
    else record p { query = q; loading = true; timer = some q }

-- `setIsOpen` with the effect on `isOpen`.
pub open_search : Search → Search
open_search p = if p.is_open then p else record p { is_open = true; focusing = p.focusing + 1 }

pub close_search : Search → Search
unfolding set_query
close_search p =
    if p.is_open then set_query [] (record p { is_open = false; results = nothing_found }) else p

-- `setTimeout(() => inputRef.current.focus(), 100)`: without an input, the call throws.
pub focus_of : ℕ → Search → Search
focus_of zero p = p
focus_of (suc n) p = record p { focusing = n; thrown = p.thrown + one_if (not p.is_open) }

pub focus_due : Search → Search
unfolding focus_of
focus_due p = focus_of p.focusing p

-- The timer of 300 ms.
pub fetch_results : Option Text → Search → Search
fetch_results none p = p
fetch_results (some q) p = record p {
  timer = none;
  in_flight = p.in_flight + 1;
  requests = p.requests ++ q ∷ [];
}

pub search_due : Search → Search
unfolding fetch_results
search_due p = fetch_results p.timer p

abbrev shown : Option Found → Found → Found
shown none f = f
shown (some f) old = f

pub answer_of : ℕ → Option Found → Search → Search
answer_of zero answer p = p
answer_of (suc n) answer p = record p {
  results = shown answer p.results;
  in_flight = n;
  loading = false;
}

pub answered : Option Found → Search → Search
unfolding answer_of
answered answer p = answer_of p.in_flight answer p

pub navigate_to : Text → Search → Search
unfolding close_search
navigate_to path p = record (close_search p) { hash = p.hash ++ path ∷ [] }

pub has_results : Search → Bool
has_results p =
    ltb 0 (length p.results.campaigns)
    || ltb 0 (length p.results.contacts)
    || ltb 0 (length p.results.segments)

pub data View : Type 0 where
  hidden spinner no_results : View
  listed : Found → View

pub view : Search → View
unfolding has_results
view p =
    if p.is_open
    then if is_empty (trim p.query)
      then listed p.results
      else if p.loading
      then spinner
      else if has_results p
      then listed p.results
      else no_results
    else hidden

-- The input and the results are there while the palette is open. `pressed_k` is Ctrl+K or the
-- event `nexra:open-search`; `pressed_escape` is Escape or a click beside the palette.
pub data Event : Type 0 where
  pressed_k pressed_escape focus_timer search_timer : Event
  typed : Text → Event
  picked : (path : Text) → Event
  ended : Option Found → Event

pub step : Event → Search → Search
unfolding open_search close_search focus_due search_due set_query answered navigate_to
step pressed_k p = open_search p
step pressed_escape p = close_search p
step focus_timer p = focus_due p
step search_timer p = search_due p
step (typed q) p = if p.is_open then set_query q p else p
step (picked path) p = if p.is_open then navigate_to path p else p
step (ended answer) p = answered answer p

pub run : List Event → Search → Search
run [] p = p
run (e ∷ es) p = run es (step e p)
