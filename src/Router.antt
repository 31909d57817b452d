-- ===== src/Router.antt =====
-- nexra-dashboard/src/pages/App.js: which page the dashboard shows for an address.
pub mod Access
mod Tests
use nexra.Prelude.{
  ℕ, ◌+◌, ◌*◌, ◌-◌, Bool, true, false, Option, none, some, List, [], ◌∷◌, Text, codes, text_eq,
  contains, starts_with, drop, split, split_on, get_elem?, ◌++◌, if◌then◌else◌, is_empty, ◌==◌,
}
use nexra.Auth.{User}
use nexra.Phone.{is_digit}

pub data Page : Type 0 where
  create_campaign campaigns contacts messages pricing sender_ids templates settings help api_docs
        docs dashboard :
      Page
  sender_id_verification : ℕ → Page

pub data Screen : Type 0 where
  nothing login register : Screen
  inside : Page → Screen

-- `x || d` on a text: the empty text gives `d`.
abbrev pub text_or : Text → Text → Text
text_or [] d = d
text_or (c ∷ s) d = c ∷ s

abbrev part_or : Option Text → Text → Text
part_or none d = d
part_or (some t) d = text_or t d

-- `handleHashChange`: the page's name in the address.
pub current_page : Text → Text
unfolding split_on
current_page hash =
    part_or (get_elem? (split b'/' (text_or (drop 1 hash) (codes "/dashboard"))) 1)
      (codes "dashboard")

-- The digits at the front of a text, as a number; `none` without a digit.
pub leading_number : Option ℕ → Text → Option ℕ
unfolding is_digit
leading_number acc [] = acc
leading_number acc (c ∷ s) = elim (is_digit c) [
  | true ↦ leading_number (some (elim acc [ none ↦ 0 | some n ↦ 10 * n ] + (c - b'0'))) s
  | false ↦ acc
]

-- `/^#\/sender-ids\/verify\/(\d+)/`
pub verification_id : Text → Option ℕ
unfolding leading_number
verification_id hash =
    if starts_with hash (codes "#/sender-ids/verify/")
    then leading_number none (drop 20 hash)
    else none

-- The identity 0 counts as none.
pub sender_ids_page : Text → Page
unfolding verification_id
sender_ids_page hash = elim (verification_id hash) [
  | none ↦ sender_ids
  | some id ↦ if id == 0 then sender_ids else sender_id_verification id
]

pub render_page : Text → Page
unfolding current_page sender_ids_page text_eq contains
render_page hash =
    let page = current_page hash in
    if text_eq page (codes "campaigns")
    then if contains hash (codes "/create") then create_campaign else campaigns
    else if text_eq page (codes "contacts")
    then contacts
    else if text_eq page (codes "messages")
    then messages
    else if text_eq page (codes "pricing")
    then pricing
    else if text_eq page (codes "sender-ids")
    then sender_ids_page hash
    else if text_eq page (codes "templates")
    then templates
    else if text_eq page (codes "settings")
    then settings
    else if text_eq page (codes "help")
    then help
    else if text_eq page (codes "api-docs")
    then api_docs
    else if text_eq page (codes "docs")
    then docs
    else dashboard

pub app : Bool → Option User → Text → Screen
unfolding current_page text_eq
app loading none hash =
    if loading
    then nothing
    else if text_eq (current_page hash) (codes "register")
    then register
    else login
app loading (some user) hash = if loading then nothing else inside (render_page hash)

-- `onNavigate`
abbrev pub navigate : Text → Text
navigate page = codes "#/" ++ page
