-- ===== src/Drawer.antt =====
-- nexra-dashboard/src/components/RecipientsDrawer.js: the drawer with the recipients of a campaign.
-- Sets are lists in insertion order. `requests` logs the requests sent; their answers come as
-- events of their own, in any order.
pub mod Selection
pub mod Paging
pub mod Marks
mod Tests
use nexra.Prelude.{
  ℕ, ◌+◌, ◌-◌, ◌*◌, ◌/◌, min, String, Bool, true, false, not, ◌&&◌, ◌||◌, Option, none, some, List,
  [], ◌∷◌, ◌++◌, Text, codes, text_eq, ◌==◌, ltb, leb, if◌then◌else◌, is_empty, filter, map, all,
  any, contains, includes, set_add, set_delete, length,
}

pub record Recipient : Type 0 where
  pub id : ℕ
  pub phone : Text
  pub name : Option Text
  pub status : Text

pub data Request : Type 0 where
  recipients_of : (campaign skip limit : ℕ) → Request
  retry_message : (campaign message : ℕ) → Request
  retry_these : (campaign : ℕ) (messages : List ℕ) → Request
  retry_campaign : (campaign : ℕ) → Request

pub record Drawer : Type 0 where
  pub campaign : Option ℕ
  pub recipients : List Recipient
  pub total : ℕ
  pub page : ℕ
  pub loading : Bool
  pub search : Text
  pub selected : List ℕ
  pub retrying_ids : List ℕ
  pub retrying_all : Bool
  pub retrying_selected : Bool
  pub success_ids : List ℕ
  pub requests : List Request

abbrev pub page_size : ℕ
page_size = 50

abbrev pub request : Request → Drawer → Drawer
request r d = record d { requests = d.requests ++ r ∷ [] }

-- `FAILED_STATUSES.includes(r.status)`
pub is_failed : Recipient → Bool
unfolding text_eq
is_failed r = text_eq r.status (codes "failed") || text_eq r.status (codes "not_delivered")

-- The rows that the search leaves; `lower` is `toLowerCase`. An empty name matches nothing.
abbrev name_matches : (Text → Text) → Text → Option Text → Bool
name_matches lower search none = false
name_matches lower search (some []) = false
name_matches lower search (some (c ∷ s)) = contains (lower (c ∷ s)) (lower search)

pub filtered : (Text → Text) → Drawer → List Recipient
unfolding contains
filtered lower d =
    if is_empty d.search
    then d.recipients
    else filter (λ r. contains r.phone d.search || name_matches lower d.search r.name) d.recipients

pub toggle_select : ℕ → Drawer → Drawer
toggle_select id d = record d {
  selected = if includes d.selected id then set_delete d.selected id else set_add d.selected id;
}

-- `failedIds`
pub failed_ids : (Text → Text) → Drawer → List ℕ
unfolding is_failed filtered
failed_ids lower d = map (λ r. r.id) (filter is_failed (filtered lower d))

abbrev pub delete_each : List ℕ → List ℕ → List ℕ
delete_each [] s = s
delete_each (id ∷ ids) s = delete_each ids (set_delete s id)

abbrev pub add_each : List ℕ → List ℕ → List ℕ
add_each [] s = s
add_each (id ∷ ids) s = add_each ids (set_add s id)

pub toggle_select_all_failed : (Text → Text) → Drawer → Drawer
unfolding failed_ids
toggle_select_all_failed lower d = record d {
  selected =
      if all (includes d.selected) (failed_ids lower d)
      then delete_each (failed_ids lower d) d.selected
      else add_each (failed_ids lower d) d.selected;
}

-- The state of the box "Select All Failed", and whether it is shown as partly set.
pub all_failed_selected : (Text → Text) → Drawer → Bool
unfolding failed_ids
all_failed_selected lower d =
    ltb 0 (length (failed_ids lower d)) && all (includes d.selected) (failed_ids lower d)

pub some_failed_selected : (Text → Text) → Drawer → Bool
unfolding failed_ids
some_failed_selected lower d = any (includes d.selected) (failed_ids lower d)

-- `fetchRecipients` up to its request. It is not called without a campaign.
pub fetch_recipients : Bool → Drawer → Drawer
fetch_recipients silent d = elim d.campaign [
  | none ↦ d
  | some c ↦
      request (recipients_of c (d.page * page_size) page_size)
        (record d { loading = if silent then d.loading else true })
]

-- What the answer to that request holds; both keys may be absent.
pub record Page : Type 0 where
  pub items : Option (List Recipient)
  pub total : Option ℕ

abbrev items_or_empty : Option (List Recipient) → List Recipient
items_or_empty none = []
items_or_empty (some rs) = rs

abbrev or_zero : Option ℕ → ℕ
or_zero none = 0
or_zero (some n) = n

-- The rest of `fetchRecipients`: the answer, or none when the request failed.
pub fetched : Option Page → Drawer → Drawer
fetched none d = record d { loading = false }
fetched (some p) d = record d {
  recipients = items_or_empty p.items;
  total = or_zero p.total;
  selected = [];
  loading = false;
}

abbrev pub shows : Option ℕ → ℕ → Bool
shows none c = false
shows (some shown) c = shown == c

-- Another campaign is shown, or none: both effects that depend on it run, in their order, when its
-- id is new. The second one sends its request with the page of the render before, and runs again
-- when the page has changed.
pub set_campaign : Option ℕ → Drawer → Drawer
unfolding fetch_recipients
set_campaign none d = record d { campaign = none }
set_campaign (some c) d =
    let shown = fetch_recipients false (record d { campaign = some c }) in
    let reset = record shown { page = 0; search = []; selected = [] } in
    if shows d.campaign c then d else if d.page == 0 then reset else fetch_recipients false reset

pub set_page : ℕ → Drawer → Drawer
unfolding fetch_recipients
set_page p d = if p == d.page then d else fetch_recipients false (record d { page = p })

pub total_pages : Drawer → ℕ
total_pages d = (d.total + (page_size - 1)) / page_size

-- The footer is shown for more than one page, while nothing is loading.
pub has_footer : Drawer → Bool
unfolding total_pages
has_footer d = ltb 1 (total_pages d) && not d.loading

-- The two buttons of the footer; a disabled one does nothing.
pub previous_page : Drawer → Drawer
previous_page d = if has_footer d && not (d.page == 0) then set_page (d.page - 1) d else d

pub next_page : Drawer → Drawer
next_page d =
    if has_footer d && ltb (d.page + 1) (total_pages d)
    then set_page (min (total_pages d - 1) (d.page + 1)) d
    else d

-- Retrying one message: the request, then what happens after its answer. `posted` says whether the
-- request succeeded; the list is then fetched again, without the spinner. The drawer is idle again
-- (`retry_single_done`) after both.
pub retry_single : ℕ → Drawer → Drawer
retry_single id d = elim d.campaign [
  | none ↦ record d { retrying_ids = set_add d.retrying_ids id }
  | some c ↦ request (retry_message c id) (record d { retrying_ids = set_add d.retrying_ids id })
]

pub flash_success : List ℕ → Drawer → Drawer
flash_success ids d = record d { success_ids = ids }

-- The timer of `flashSuccess`, 2.5 seconds later.
pub flash_over : Drawer → Drawer
flash_over d = record d { success_ids = [] }

-- After the answer to a retry: on success the rows flash and the list is fetched anew, and `answer`
-- is what that request returns.
pub after_retry : List ℕ → Bool → Option Page → Drawer → Drawer
unfolding flash_success fetch_recipients fetched
after_retry ids false answer d = d
after_retry ids true answer d = fetched answer (fetch_recipients true (flash_success ids d))

pub retry_single_done : ℕ → Bool → Option Page → Drawer → Drawer
unfolding after_retry
retry_single_done id posted answer d =
    let e = after_retry (id ∷ []) posted answer d in
    record e { retrying_ids = set_delete e.retrying_ids id }

-- `retrySelected` from its start to its end. Without a campaign it fails before its request.
pub retry_selected : Bool → Option Page → Drawer → Drawer
unfolding after_retry
retry_selected posted answer d = if is_empty d.selected then d else elim d.campaign [
  | none ↦ record d { retrying_selected = false }
  | some c ↦
      record (after_retry d.selected posted answer
        (request (retry_these c d.selected) (record d { retrying_selected = true }))) {
          retrying_selected = false;
        }
]

-- `retryAllFailed` from its start to its end: the rows that flash are those of the page.
pub retry_all_failed : Bool → Option Page → Drawer → Drawer
unfolding after_retry is_failed
retry_all_failed posted answer d = elim d.campaign [
  | none ↦ record d { retrying_all = false }
  | some c ↦
      record (after_retry (map (λ r. r.id) (filter is_failed d.recipients)) posted answer
        (request (retry_campaign c) (record d { retrying_all = true }))) { retrying_all = false }
]
