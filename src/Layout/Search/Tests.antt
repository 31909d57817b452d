-- ===== src/Layout/Search/Tests.antt =====
-- A search that is closed before its answer.
use nexra.Prelude.{◌≡◌, refl, true, some, List, [], ◌∷◌, codes}
use nexra.Layout.Search.{
  Found, nothing_found, Search, start, pressed_k, pressed_escape, typed, search_timer, ended,
  focus_timer, Event, listed, view, step, run, close_search, set_query, focus_due, focus_of,
  open_search,
}
use nexra.Layout.Search.Pending.{IsOrderly, run-start-IsOrderly}
use nexra.Layout.Search.Late.{answered-close_search}

-- Closing at once: the timer that puts the focus on the input finds none.
focus_too_late : (run (pressed_k ∷ pressed_escape ∷ focus_timer ∷ []) start).thrown ≡ 1
unfolding run step close_search set_query focus_due focus_of open_search
focus_too_late = refl

abbrev keys : List Event
keys = pressed_k ∷ typed (codes "ama") ∷ search_timer ∷ []

run-start-IsOrderly_example : IsOrderly (run keys start)
run-start-IsOrderly_example = run-start-IsOrderly keys

abbrev looking : Search
looking = record start {
  is_open = true;
  query = codes "ama";
  loading = true;
  in_flight = 1;
  requests = codes "ama" ∷ [];
}

abbrev ama : Found
ama = record nothing_found { contacts = codes "Ama" ∷ [] }

answered-close_search_example :
    let after = step pressed_k (step (ended (some ama)) (step pressed_escape looking)) in
    (after.query ≡ []) × (view after ≡ listed ama)
answered-close_search_example = answered-close_search ama 0 looking refl refl
