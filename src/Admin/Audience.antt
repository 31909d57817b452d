-- ===== src/Admin/Audience.antt =====
-- nexra-dashboard/src/pages/AnnouncementsPage.js: posting an announcement to all users or to some.
use nexra.Prelude.{
  ℕ, ◌≡◌, refl, String, Bool, true, false, not, ◌&&◌, Option, none, some, List, [], ◌∷◌, ◌++◌, Text,
  codes, trim, if◌then◌else◌, is_empty, includes, set_delete, filter, any, contains, append_assoc,
  Bool-cases, inl, inr,
}
use nexra.Toasts.{Variant, success, error}
use nexra.Wizard.{Notice}
use nexra.SenderIds.{Answer, ok, failed}

pub data RecipientMode : Type 0 where
  everyone selected : RecipientMode

pub record AnnouncementForm : Type 0 where
  pub title : Text
  pub content : Text
  pub kind : Text
  pub priority : Text

abbrev pub empty_form : AnnouncementForm
empty_form = record { title = []; content = []; kind = codes "info"; priority = codes "normal" }

-- A user, as far as the search reads one.
pub record Person : Type 0 where
  pub id : ℕ
  pub full_name : Option Text
  pub email : Option Text
  pub organization_name : Option Text
  pub role : Option Text

-- The identities of the recipients go out joined by commas; no identity stands for everyone.
pub data Call : Type 0 where
  list_announcements list_users : Call
  post_announcement : AnnouncementForm → List ℕ → Call

pub record Announcements : Type 0 where
  pub users : List Person
  pub users_loading : Bool
  pub is_creating : Bool
  pub recipient_mode : RecipientMode
  pub selected_user_ids : List ℕ
  pub user_search : Text
  pub form : AnnouncementForm
  pub calls : List Call
  pub notices : List Notice

abbrev notify : String → Variant → Announcements → Announcements
notify message variant p = record p {
  notices = p.notices ++ record { message = message; variant = variant } ∷ [];
}

abbrev call : Call → Announcements → Announcements
call c p = record p { calls = p.calls ++ c ∷ [] }

-- Opening the dialog fetches the users, unless they are there or on their way.
pub open_create : Announcements → Announcements
open_create p =
    if p.is_creating
    then p
    else if is_empty p.users && not p.users_loading
    then call list_users (record p { is_creating = true; users_loading = true })
    else record p { is_creating = true }

pub users_fetched : Option (List Person) → Announcements → Announcements
users_fetched none p = record (notify "Failed to load users" error p) { users_loading = false }
users_fetched (some people) p = record p { users = people; users_loading = false }

pub toggle_user_id : ℕ → Announcements → Announcements
toggle_user_id id p = record p {
  selected_user_ids =
      if includes p.selected_user_ids id
      then set_delete p.selected_user_ids id
      else p.selected_user_ids ++ id ∷ [];
}

abbrev pub target_user_ids : RecipientMode → List ℕ → List ℕ
target_user_ids everyone ids = []
target_user_ids selected ids = ids

abbrev is_selected : RecipientMode → Bool
is_selected everyone = false
is_selected selected = true

-- `handleCreate` from its start to its end.
pub handle_create : Answer → Announcements → Announcements
handle_create answer p =
    if is_selected p.recipient_mode && is_empty p.selected_user_ids
    then notify "Pick at least one user or switch to All Users." error p
    else let sent =
        call (post_announcement p.form (target_user_ids p.recipient_mode p.selected_user_ids)) p in
      elim answer [
        | ok ↦ call list_announcements (record (notify "Announcement posted!" success sent) {
          is_creating = false;
          form = empty_form;
          recipient_mode = everyone;
          selected_user_ids = [];
          user_search = [];
        })
        | failed detail ↦ notify "Failed to post" error sent
      ]

abbrev or_empty : Option Text → Text
or_empty none = []
or_empty (some t) = t

-- `filteredUsers`; `lower` is `toLowerCase`.
pub filtered_users : (Text → Text) → Announcements → List Person
unfolding trim contains
filtered_users lower p =
    let query = lower (trim p.user_search) in
    if is_empty query
    then p.users
    else filter
        (λ u.
          any (λ value. contains (lower (or_empty value)) query)
            (u.full_name ∷ u.email ∷ u.organization_name ∷ u.role ∷ []))
        p.users

abbrev pub then_list : Answer → List Call
then_list ok = list_announcements ∷ []
then_list (failed detail) = []

abbrev pub mode_after : Answer → RecipientMode → RecipientMode
mode_after ok mode = everyone
mode_after (failed detail) mode = mode

-- Posting to picked users with nobody picked sends nothing. With some picked it goes to exactly
-- them, and the list is fetched and everyone is chosen again exactly on success.
pub handle_create-selected :
    (answer : Answer) (p : Announcements)
    → p.recipient_mode ≡ selected
    → let after = handle_create answer p in
      (after.calls ≡ (
        if is_empty p.selected_user_ids
        then p.calls
        else p.calls ++ post_announcement p.form p.selected_user_ids ∷ then_list answer))
      × (after.recipient_mode
          ≡ (if is_empty p.selected_user_ids then selected else mode_after answer selected))
unfolding handle_create
handle_create-selected ok p h = elim (Bool-cases (is_empty p.selected_user_ids)) [
  | inl none_picked ↦ rw (h, none_picked, handle_create) (refl, refl)
  | inr some_picked ↦
      rw (h, some_picked, handle_create)
        (
          append_assoc p.calls (post_announcement p.form p.selected_user_ids ∷ [])
              (list_announcements ∷ []),
          refl,
        )
]
handle_create-selected (failed detail) p h = elim (Bool-cases (is_empty p.selected_user_ids)) [
  | inl none_picked ↦ rw (h, none_picked, handle_create) (refl, refl)
  | inr some_picked ↦ rw (h, some_picked, handle_create) (refl, refl)
]
