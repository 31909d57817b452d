-- ===== src/Messages.antt =====
-- nexra-dashboard/src/pages/MessagesPage.js: the history of campaigns. `requests` logs the requests
-- sent; their answers come as events of their own. A callback that React keeps from an earlier
-- render (the search timer, the listener for live updates) carries the view of that render.
pub mod Views
pub mod Paging
pub mod Badges
mod Tests
use Prim.Native.String
use text.Mathlib.Text.{◌==◌ as str_eq}
use nexra.Prelude.{
  ℕ, ◌+◌, ◌-◌, ◌*◌, ◌/◌, min, String, Bool, true, false, not, ◌&&◌, ◌||◌, Option, none, some, List,
  [], ◌∷◌, ◌++◌, Text, codes, text_eq, ◌==◌, ltb, leb, if◌then◌else◌, is_empty, any, is_some,
}
use nexra.Toasts.{Variant, success, error}
use nexra.Wizard.{Notice}

pub record Campaign : Type 0 where
  pub id : ℕ
  pub status : Text

-- What the list is fetched by.
pub record View : Type 0 where
  pub filter : Text
  pub term : Text
  pub page : ℕ

-- The parameters of the request; a filter or a text that is not given is left out.
pub record Params : Type 0 where
  pub limit : ℕ
  pub skip : ℕ
  pub status : Option Text
  pub q : Option Text

pub data Request : Type 0 where
  list_campaigns : Params → Request
  stats_of : ℕ → Request
  retry_campaign : ℕ → Request
  delete_campaign : ℕ → Request

pub record Messages : Type 0 where
  pub view : View
  pub campaigns : List Campaign
  pub loading : Bool
  pub total : ℕ
  pub expanded_id : Option ℕ
  pub campaign_stats : List ℕ
  pub confirm_delete : Option ℕ
  pub delete_loading : Bool
  pub timer : Option View
  pub listener : View
  pub requests : List Request
  pub notices : List Notice

abbrev pub page_size : ℕ
page_size = 10

abbrev pub request : Request → Messages → Messages
request r m = record m { requests = m.requests ++ r ∷ [] }

abbrev pub notify : String → Variant → Messages → Messages
notify message variant m = record m {
  notices = m.notices ++ record { message = message; variant = variant } ∷ [];
}

pub params_of : View → Params
unfolding text_eq
params_of v = record {
  limit = page_size;
  skip = v.page * page_size;
  status = if text_eq v.filter (codes "all") then none else some v.filter;
  q = if is_empty v.term then none else some v.term;
}

-- `fetchCampaigns` of the render with the view `v`, up to its request.
pub fetch_campaigns : View → Messages → Messages
fetch_campaigns v m = request (list_campaigns (params_of v)) (record m { loading = true })

pub record Page : Type 0 where
  pub items : Option (List Campaign)
  pub total : Option ℕ

abbrev items_or_empty : Option (List Campaign) → List Campaign
items_or_empty none = []
items_or_empty (some cs) = cs

abbrev or_zero : Option ℕ → ℕ
or_zero none = 0
or_zero (some n) = n

-- The rest of `fetchCampaigns`.
pub fetched : Option Page → Messages → Messages
fetched none m = notify "Failed to load campaigns" error (record m { loading = false })
fetched (some p) m = record m {
  campaigns = items_or_empty p.items;
  total = or_zero p.total;
  loading = false;
}

abbrev pub initial_view : View
initial_view = record { filter = codes "all"; term = []; page = 0 }

-- The first render: every effect runs.
pub mount : Messages
unfolding fetch_campaigns
mount = fetch_campaigns initial_view (record {
  view = initial_view;
  campaigns = [];
  loading = true;
  total = 0;
  expanded_id = none;
  campaign_stats = [];
  confirm_delete = none;
  delete_loading = false;
  timer = some initial_view;
  listener = initial_view;
  requests = [];
  notices = [];
})

-- A render with another view: the effect on the filter and the page runs when one of them is new.
pub render : View → Messages → Messages
unfolding fetch_campaigns
render v m =
    if text_eq v.filter m.view.filter && v.page == m.view.page
    then record m { view = v }
    else fetch_campaigns v (record m { view = v })

pub set_filter : Text → Messages → Messages
set_filter key m = render (record (m.view) { filter = key; page = 0 }) m

pub set_page : ℕ → Messages → Messages
set_page p m = render (record (m.view) { page = p }) m

-- Typing: the timer of the last text is cleared, and the new one keeps this render's view.
pub type_search : Text → Messages → Messages
type_search term m = record m {
  view = record (m.view) { term = term };
  timer = some (record (m.view) { term = term });
}

-- The timer: back to the first page, and a request with the view of the render it was set in. The
-- page may be new, which fetches again.
pub search_due : Messages → Messages
unfolding fetch_campaigns
search_due m = elim m.timer [
  | none ↦ m
  | some v ↦
      let sent = fetch_campaigns v (record m { timer = none }) in
      render (record (m.view) { page = 0 }) sent
]

pub total_pages : Messages → ℕ
total_pages m = (m.total + (page_size - 1)) / page_size

-- The pagination controls, shown for more than one page; a disabled button does nothing.
pub previous_page : Messages → Messages
previous_page m =
    if ltb 1 (total_pages m) && not (m.view.page == 0) then set_page (m.view.page - 1) m else m

pub next_page : Messages → Messages
next_page m =
    if ltb 1 (total_pages m) && ltb (m.view.page + 1) (total_pages m)
    then set_page (min (total_pages m - 1) (m.view.page + 1)) m
    else m

pub pick_page : ℕ → Messages → Messages
pick_page i m = if ltb 1 (total_pages m) && ltb i (total_pages m) then set_page i m else m

abbrev has : List ℕ → ℕ → Bool
has [] id = false
has (i ∷ is) id = i == id || has is id

-- `fetchCampaignStats`: what is known is not fetched again, unless it is forced.
pub fetch_campaign_stats : ℕ → Bool → Messages → Messages
fetch_campaign_stats id force_refresh m =
    if has m.campaign_stats id && not force_refresh then m else request (stats_of id) m

-- Its answer; a failure is only logged.
pub stats_fetched : ℕ → Bool → Messages → Messages
stats_fetched id false m = m
stats_fetched id true m = record m {
  campaign_stats = if has m.campaign_stats id then m.campaign_stats else id ∷ m.campaign_stats;
}

abbrev is_id : Option ℕ → ℕ → Bool
is_id none id = false
is_id (some e) id = e == id

-- `handleExpand`; the listener is registered anew, with the view of this render.
pub handle_expand : ℕ → Messages → Messages
unfolding fetch_campaign_stats
handle_expand id m =
    if is_id m.expanded_id id
    then record m { expanded_id = none; listener = m.view }
    else record (fetch_campaign_stats id false m) { expanded_id = some id; listener = m.view }

-- A live update, with data or without.
pub realtime_update : Bool → Messages → Messages
unfolding fetch_campaigns
realtime_update has_data m =
    let refreshed = fetch_campaigns m.listener m in
    elim m.expanded_id [
      | none ↦ refreshed
      | some id ↦ if has_data then request (stats_of id) refreshed else refreshed
    ]

-- While a campaign is on its way, the list is fetched every 15 seconds.
pub has_active : List Campaign → Bool
unfolding text_eq
has_active cs =
    any (λ c. text_eq c.status (codes "delivering") || text_eq c.status (codes "sending")) cs

-- `error.response?.data?.detail || 'Unknown error'`
abbrev or_unknown : Option String → String
or_unknown none = "Unknown error"
or_unknown (some detail) = if str_eq detail "" then "Unknown error" else detail

pub data Answer : Type 0 where
  ok : Answer
  failed : Option String → Answer

-- `handleBatchRetry`, with the answer to the retry and whether that to the statistics arrives.
pub handle_batch_retry : ℕ → Answer → Answer → Messages → Messages
unfolding stats_fetched
handle_batch_retry id (failed detail) stats m =
    notify (String.◌++◌ "Retry failed: " (or_unknown detail)) error (request (retry_campaign id) m)
handle_batch_retry id ok stats m =
    let told =
      notify "All failed messages have been re-enqueued" success (request (retry_campaign id) m) in
    if is_id m.expanded_id id
    then elim stats [
      | ok ↦ stats_fetched id true (request (stats_of id) told)
      | failed detail ↦
          notify (String.◌++◌ "Retry failed: " (or_unknown detail)) error
            (request (stats_of id) told)
    ]
    else told

abbrev pub ask_delete : ℕ → Messages → Messages
ask_delete id m = record m { confirm_delete = some id }

-- `handleDeleteCampaign` of the open dialog; the list is fetched with this render's view.
pub handle_delete_campaign : Answer → Messages → Messages
unfolding fetch_campaigns
handle_delete_campaign answer m = elim m.confirm_delete [
  | none ↦ m
  | some id ↦ elim answer [
    | ok ↦
        record (fetch_campaigns m.view
          (record (notify "Campaign history deleted" success (request (delete_campaign id) m)) {
            confirm_delete = none;
          })) { delete_loading = false }
    | failed detail ↦
        record (notify (String.◌++◌ "Delete failed: " (or_unknown detail)) error
          (request (delete_campaign id) m)) { delete_loading = false }
  ]
]
