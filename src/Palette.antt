-- ===== src/Palette.antt =====
-- nexra-dashboard/src/components/layout/CommandPalette.js: the search of the admin console. The timer
-- of a search and the requests in flight are part of the state; an answer comes as an event, and
-- carries the term of its search.
pub mod Selection
use nexra.Prelude.{
  ℕ, ◌+◌, ◌-◌, String, Bool, true, false, not, ◌&&◌, ◌||◌, Option, none, some, List, [], ◌∷◌, ◌++◌,
  Text, codes, ltb, if◌then◌else◌, is_empty, filter, map, length, trim, contains, get_elem?,
}

pub data Kind : Type 0 where
  page user message : Kind

pub record Result : Type 0 where
  pub kind : Kind
  pub id : Text
  pub title : Text

abbrev page_of : String → String → Result
page_of id title = record { kind = page; id = codes id; title = codes title }

abbrev pub pages : List Result
pages =
    page_of "overview" "Business Overview"
    ∷ page_of "admin-transactions" "Transaction Ledger"
    ∷ page_of "approvals" "Sender ID Approvals"
    ∷ page_of "management" "Platform Management"
    ∷ page_of "bugs" "Bug Reports"
    ∷ page_of "staff" "Staff Management"
    ∷ page_of "users" "Users Directory"
    ∷ page_of "audit" "Audit Logs"
    ∷ page_of "announcements" "Announcements"
    ∷ page_of "health" "System Health"
    ∷ []

pub record Palette : Type 0 where
  pub is_open : Bool
  pub query : Text
  pub results : List Result
  pub loading : Bool
  pub active_index : ℕ
  pub timer : Option Text
  pub in_flight : List Text
  pub navigated : List Text
  pub impersonated : List Text

-- The effect on the palette's state: opening it empties the search. The pending timer stays.
abbrev set_open : Bool → Palette → Palette
set_open is_open p =
    if is_open && not p.is_open
    then record p { is_open = true; query = []; results = []; active_index = 0 }
    else record p { is_open = is_open }

-- The keys of the whole page: Ctrl+K, and Escape.
unfoldable pub toggle_open : Palette → Palette
toggle_open p = set_open (not p.is_open) p

pub press_escape : Palette → Palette
press_escape p = set_open false p

-- `handleSearch`
unfoldable pub handle_search : Text → Palette → Palette
handle_search term p =
    if is_empty (trim term)
    then record p { query = term; results = []; timer = none }
    else record p { query = term; timer = some term }

-- The timer: the request goes out.
unfoldable pub search_due : Palette → Palette
search_due p = elim p.timer [
  | none ↦ p
  | some term ↦ record p { timer = none; loading = true; in_flight = p.in_flight ++ term ∷ [] }
]

-- `pages.filter(…)`; `lower` is `toLowerCase`.
unfoldable pub page_matches : (Text → Text) → Text → List Result
unfolding contains
page_matches lower term = filter (λ r. contains (lower r.title) (lower term)) pages

-- What the request finds; a failed one finds nothing.
pub record Found : Type 0 where
  pub users : List Result
  pub messages : List Result

abbrev found : Option Found → List Result
found none = []
found (some f) = f.users ++ f.messages

-- The answer to the search for `term`.
unfoldable pub searched : (Text → Text) → Text → Option Found → Palette → Palette
searched lower term answer p = record p {
  results = page_matches lower term ++ found answer;
  active_index = 0;
  loading = false;
}

-- `handleAction`
pub handle_action : Option Result → Palette → Palette
handle_action none p = p
handle_action (some r) p = elim r.kind [
  | page ↦ record (set_open false p) { navigated = p.navigated ++ r.id ∷ [] }
  | user ↦ record (set_open false p) {
    navigated = p.navigated ++ codes "users" ∷ [];
    impersonated = p.impersonated ++ r.id ∷ [];
  }
  | message ↦ p
]

pub data Key : Type 0 where
  arrow_down arrow_up enter : Key

-- `handleKeyDownModal`
unfoldable pub handle_key : Key → Palette → Palette
handle_key key p = if is_empty p.results then p else elim key [
  | arrow_down ↦
      if ltb (p.active_index + 1) (length p.results)
      then record p { active_index = p.active_index + 1 }
      else p
  | arrow_up ↦ if ltb 0 p.active_index then record p { active_index = p.active_index - 1 } else p
  | enter ↦ handle_action (get_elem? p.results p.active_index) p
]

pub data Event : Type 0 where
  toggled escaped due : Event
  typed : Text → Event
  answered : Text → Option Found → Event
  pressed : Key → Event

module _ (lower : Text → Text) where
  unfoldable pub step : Event → Palette → Palette
  step toggled p = toggle_open p
  step escaped p = press_escape p
  step due p = search_due p
  step (typed term) p = handle_search term p
  step (answered term answer) p = searched lower term answer p
  step (pressed key) p = if p.is_open then handle_key key p else p

  unfoldable pub run : List Event → Palette → Palette
  run [] p = p
  run (e ∷ es) p = run es (step e p)
