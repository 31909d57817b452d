-- ===== src/Admin/Platform.antt =====
-- nexra-dashboard/src/pages/PlatformManagementPage.js: users and organizations. `calls` and
-- `notices` log the requests sent and the toasts shown; a handler takes the answer to its request as
-- an argument, and the answer to a fetch is an event of its own, which names no tab.
pub mod Actions
use Prim.Native.String
use nexra.Prelude.{
  ℕ, suc, ◌+◌, ◌-◌, ◌*◌, ◌/◌, min, String, Bool, true, false, not, ◌&&◌, ◌||◌, Option, none, some,
  List, [], ◌∷◌, ◌++◌, Text, text_eq, if◌then◌else◌, leb, ltb, ◌==◌, length,
}
use nexra.Toasts.{Variant, success, error}
use nexra.Wizard.{Notice}
use nexra.SenderIds.{Answer, ok, failed, detail_or}

pub data Tab : Type 0 where
  users orgs : Tab

-- A row of either tab; `name` is how its messages name it.
pub record Row : Type 0 where
  pub id : ℕ
  pub name : String
  pub is_active : Bool
  pub permissions : List (Text × Bool)
  pub plan_slug : Option Text

pub data Call : Type 0 where
  list_of : Tab → (skip limit : ℕ) → Call
  patch_active : Tab → ℕ → Bool → Call
  patch_permissions : ℕ → List (Text × Bool) → Call
  promote impersonate : ℕ → Call
  delete : Tab → ℕ → Call
  adjust_balance : ℕ → (amount description : Text) → Call
  assign_plan : ℕ → Option Text → Call

-- What the confirmation dialog does when it is confirmed. A deletion keeps the tab on which it was
-- asked for.
pub data Action : Type 0 where
  promote_user impersonate_user : Row → Action
  delete_row : Tab → ℕ → Action

pub record Platform : Type 0 where
  pub active_tab : Tab
  pub rows : List Row
  pub total : ℕ
  pub page : ℕ
  pub loading : Bool
  pub confirm_action : Option Action
  pub adjustment_org : Option ℕ
  pub adj_amount : Text
  pub adj_desc : Text
  pub adj_loading : Bool
  pub plan_org : Option ℕ
  pub selected_plan : Text
  pub plan_loading : Bool
  pub opened : List ℕ
  pub calls : List Call
  pub notices : List Notice

abbrev pub page_size : ℕ
page_size = 20

abbrev pub notify : String → Variant → Platform → Platform
notify message variant p = record p {
  notices = p.notices ++ record { message = message; variant = variant } ∷ [];
}

abbrev pub call : Call → Platform → Platform
call c p = record p { calls = p.calls ++ c ∷ [] }

-- `fetchData(pageNum)`, with the tab of the render.
pub fetch_data : ℕ → Platform → Platform
fetch_data page p =
    call (list_of p.active_tab (page * page_size) page_size) (record p { loading = true })

-- Its answer: a page with its total, the older flat list, or something else.
pub data Raw : Type 0 where
  paginated : List Row → ℕ → Raw
  flat : List Row → Raw
  unknown : Raw

pub fetched : Option Raw → Platform → Platform
fetched none p = record (notify "Failed to fetch data" error p) { loading = false }
fetched (some (paginated rows total)) p = record p { rows = rows; total = total; loading = false }
fetched (some (flat rows)) p = record p { rows = rows; total = length rows; loading = false }
fetched (some unknown) p = record p { rows = []; total = 0; loading = false }

abbrev pub same_tab : Tab → Tab → Bool
same_tab users users = true
same_tab orgs orgs = true
same_tab _ _ = false

-- A click on a tab; the effect runs when it is another one.
pub set_active_tab : Tab → Platform → Platform
unfolding fetch_data
set_active_tab tab p =
    if same_tab tab p.active_tab then p else fetch_data 0 (record p { active_tab = tab; page = 0 })

pub total_pages : Platform → ℕ
total_pages p = (p.total + (page_size - 1)) / page_size

pub handle_page_change : ℕ → Platform → Platform
unfolding fetch_data
handle_page_change page p = fetch_data page (record p { page = page })

-- The two buttons under the list, shown for several pages while nothing loads; a disabled one does
-- nothing.
pub has_footer : Platform → Bool
unfolding total_pages
has_footer p = ltb 1 (total_pages p) && not p.loading

pub previous_page : Platform → Platform
unfolding handle_page_change has_footer
previous_page p = if has_footer p && not (p.page == 0) then handle_page_change (p.page - 1) p else p

pub next_page : Platform → Platform
unfolding handle_page_change has_footer total_pages
next_page p =
    if has_footer p && ltb (p.page + 1) (total_pages p)
    then handle_page_change (p.page + 1) p
    else p

-- The rows that the line "Showing a–b of n" names.
pub shown_range : Platform → ℕ × ℕ
shown_range p = (p.page * page_size + 1, min ((p.page + 1) * page_size) p.total)
