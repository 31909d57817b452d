-- ===== src/Admin/Shell.antt =====
-- nexra-dashboard/src/components/layout/AdminApp.js: which page the console shows, and what it does
-- with the messages of its socket.
use Prim.Native.String
use nexra.Prelude.{
  ℕ, ◌≡◌, ◌≢◌, refl, suc, not, String, Bool, true, false, Option, none, some, [], ◌∷◌, ◌++◌, Text,
  codes, text_eq, drop, split, split_on, get_elem?, if◌then◌else◌, arith, is_some,
}
use nexra.Auth.{User}
use nexra.Router.{text_or}
use nexra.Router.Access.{NoSlash, split_on-NoSlash}
use nexra.Toasts.{Variant, success, error, other, Toasts, show_toast}

pub data AdminPage : Type 0 where
  overview admin_transactions approvals management staff users search audit announcements health
        bugs settings :
      AdminPage

pub data AdminScreen : Type 0 where
  nothing admin_login admin_register : AdminScreen
  console : AdminPage → AdminScreen

abbrev part_or : Option Text → Text → Text
part_or none d = d
part_or (some t) d = text_or t d

-- `handleHashChange`.
pub current_page : Text → Text
unfolding split_on
current_page hash =
    part_or (get_elem? (split b'/' (text_or (drop 1 hash) (codes "/approvals"))) 1)
      (codes "approvals")

-- `renderPage` and `getPageTitle`, on the page's name.
pub render_page : Text → AdminPage
unfolding text_eq
render_page page =
    if text_eq page (codes "overview")
    then overview
    else if text_eq page (codes "admin-transactions")
    then admin_transactions
    else if text_eq page (codes "approvals")
    then approvals
    else if text_eq page (codes "management")
    then management
    else if text_eq page (codes "staff")
    then staff
    else if text_eq page (codes "users")
    then users
    else if text_eq page (codes "search")
    then search
    else if text_eq page (codes "audit")
    then audit
    else if text_eq page (codes "announcements")
    then announcements
    else if text_eq page (codes "health")
    then health
    else if text_eq page (codes "bugs")
    then bugs
    else if text_eq page (codes "settings")
    then settings
    else approvals

pub get_page_title : Text → String
unfolding text_eq
get_page_title page =
    if text_eq page (codes "overview")
    then "Business Overview"
    else if text_eq page (codes "admin-transactions")
    then "Transaction Ledger"
    else if text_eq page (codes "approvals")
    then "Sender ID Approvals"
    else if text_eq page (codes "management")
    then "Platform Management"
    else if text_eq page (codes "staff")
    then "Staff Management"
    else if text_eq page (codes "users")
    then "Users Directory"
    else if text_eq page (codes "search")
    then "Global Search"
    else if text_eq page (codes "audit")
    then "Audit Logs"
    else if text_eq page (codes "announcements")
    then "Announcements"
    else if text_eq page (codes "health")
    then "System Health"
    else if text_eq page (codes "bugs")
    then "Bug Reports"
    else if text_eq page (codes "settings")
    then "Admin Settings"
    else "Admin Console"

unfoldable pub admin_app : Bool → Option User → Text → AdminScreen
unfolding current_page render_page text_eq
admin_app loading none hash =
    if loading
    then nothing
    else if text_eq (current_page hash) (codes "register")
    then admin_register
    else admin_login
admin_app loading (some user) hash =
    if loading then nothing else console (render_page (current_page hash))

-- A message of the socket, by its `type`; `unreadable` is one that does not parse.
pub data SocketMessage : Type 0 where
  gateway_status : (online : Bool) (title message : String) → SocketMessage
  new_bug : (title message : String) → SocketMessage
  another_type unreadable : SocketMessage

pub record Shell : Type 0 where
  pub toasts : Toasts
  pub pings : ℕ

abbrev say : ℕ → String → String → Variant → Shell → Shell
say now title message variant s = record s {
  toasts = show_toast now (String.◌++◌ title (String.◌++◌ ": " message)) (some variant) s.toasts;
}

abbrev ping : Shell → Shell
ping s = record s { pings = suc s.pings }

-- `ws.onmessage` at the time `now`: a toast, and the alarm for what went wrong.
pub on_message : ℕ → SocketMessage → Shell → Shell
on_message now (gateway_status true title message) s = say now title message success s
on_message now (gateway_status false title message) s = ping (say now title message error s)
on_message now (new_bug title message) s = ping (say now title message other s)
on_message now another_type s = s
on_message now unreadable s = s

-- The console's theme after its first render, from the stored one, and what is stored then.
pub theme_of : Option Text → Bool × Option Text
unfolding text_eq
theme_of none = (true, some (codes "dark"))
theme_of (some []) = (true, some (codes "dark"))
theme_of (some (c ∷ s)) = (not (text_eq (c ∷ s) (codes "light")), some (c ∷ s))

-- A page of the console shows only to a signed-in user, once loading has ended, and it is the page
-- of the address.
pub admin_app-console :
    (loading : Bool) (user : Option User) (hash : Text) (p : AdminPage)
    → admin_app loading user hash ≡ console p
    → (loading ≡ false) × (is_some user ≡ true) × (p ≡ render_page (current_page hash))
unfolding admin_app
admin_app-console loading none hash p h = ground arith
admin_app-console loading (some u) hash p h = ground arith

-- The address that the navigation makes of a page's name, which is not empty and holds no slash,
-- leads to that page.
pub current_page-href :
    (page : Text) → page ≢ [] → NoSlash page → current_page (codes "#/" ++ page) ≡ page
unfolding current_page split_on
current_page-href [] e h = absurd (e refl)
current_page-href (c ∷ s) e h = ground (arith, split_on-NoSlash [] (c ∷ s) h)
