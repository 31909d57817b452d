-- ===== src/Contacts/Segments.antt =====
-- `SegmentDetailView` of nexra-dashboard/src/pages/ContactsPage.js: one segment with its members.
-- `calls` and `notices` log the requests sent and the toasts shown. A handler that waits for
-- requests takes their answers as arguments and runs to its end.
pub mod Handlers
pub mod Phonebook
pub mod Outcomes
use Prim.Native.String
use nexra.Prelude.{
  ℕ, ◌+◌, String, Bool, true, false, not, ◌&&◌, ◌||◌, Option, none, some, List, [], ◌∷◌, ◌++◌, Text,
  codes, ◌==◌, if◌then◌else◌, is_empty, includes, set_add, set_delete, filter, map, contains,
  length,
}
use nexra.Toasts.{Variant, success, error, info}
use nexra.Wizard.{NewContact, blank_contact}
use nexra.Contacts.{Contact, Group}
use nexra.Contacts.Dedupe.{deduplicate}

pub data Call : Type 0 where
  fetch_members_of : ℕ → Call
  fetch_all_contacts : Call
  remove_member : (segment contact : ℕ) → Call
  create_contact : NewContact → Call
  add_to_segment : (segment contact : ℕ) → Call
  add_bulk : (segment : ℕ) (contacts : List ℕ) → Call
  delete_segment : ℕ → Call
  upload_file : (segment : ℕ) → Call

pub data Tab : Type 0 where
  members_tab existing_tab manual_tab upload_tab : Tab

-- What the dialog asks to confirm.
pub data Action : Type 0 where
  no_action : Action
  import_from : Group → Action
  delete_it : Action

pub record UploadResult : Type 0 where
  pub created : ℕ
  pub group_added : ℕ
  pub skipped : ℕ

-- A message with the values that its template literal holds.
pub data Part : Type 0 where
  word : String → Part
  number : ℕ → Part
  name_of : Text → Part

abbrev pub say : String → List Part
say s = word s ∷ []

pub record Notice : Type 0 where
  pub message : List Part
  pub variant : Variant

pub record View : Type 0 where
  pub segment : ℕ
  pub active_tab : Tab
  pub members : List Contact
  pub loading : Bool
  pub new_contact : NewContact
  pub draft_saved : Bool
  pub is_saving_manual : Bool
  pub is_importing_phonebook : Bool
  pub has_upload_file : Bool
  pub is_uploading : Bool
  pub upload_error : Option String
  pub upload_result : Option UploadResult
  pub all_contacts : List Contact
  pub all_segments : List Group
  pub search_existing : Text
  pub selected_existing : List ℕ
  pub is_bulk_adding : Bool
  pub confirm_action : Action
  pub is_deleting : Bool
  pub updates : ℕ
  pub left : Bool
  pub calls : List Call
  pub notices : List Notice

abbrev pub notify : List Part → Variant → View → View
notify message variant v = record v {
  notices = v.notices ++ record { message = message; variant = variant } ∷ [];
}

abbrev pub call : Call → View → View
call c v = record v { calls = v.calls ++ c ∷ [] }

-- `fetchMembers` up to its request, and after its answer.
unfoldable pub fetch_members : View → View
fetch_members v = call (fetch_members_of v.segment) (record v { loading = true })

pub members_fetched : Option (List Contact) → View → View
members_fetched none v = notify (say "Failed to load members") error (record v { loading = false })
members_fetched (some items) v = record v { members = deduplicate items; loading = false }

-- A click on a tab, or the return to the members: the effect on the tab runs when it is another one,
-- and fetches the members, and for the existing contacts those too.
abbrev pub is_tab : Tab → Tab → Bool
is_tab members_tab members_tab = true
is_tab existing_tab existing_tab = true
is_tab manual_tab manual_tab = true
is_tab upload_tab upload_tab = true
is_tab _ _ = false

abbrev fetch_existing : Tab → View → View
fetch_existing existing_tab v = call fetch_all_contacts v
fetch_existing _ v = v

unfoldable pub set_active_tab : Tab → View → View
unfolding fetch_members
set_active_tab tab v =
    if is_tab v.active_tab tab
    then v
    else fetch_existing tab (fetch_members (record v { active_tab = tab }))

-- What every change ends with: the members are fetched anew and the parent is told.
abbrev pub refresh : View → View
refresh v = let w = fetch_members v in record w { updates = w.updates + 1 }

-- `fetchAllContactsAndSegments`: both requests have to succeed. The segment itself is left out.
pub all_fetched : Option (List Contact × List Group) → View → View
all_fetched none v = v
all_fetched (some (contacts, segments)) v = record v {
  all_contacts = contacts;
  all_segments = filter (λ g. not (g.id == v.segment)) segments;
}

pub toggle_existing_contact : ℕ → View → View
toggle_existing_contact id v = record v {
  selected_existing =
      if includes v.selected_existing id
      then set_delete v.selected_existing id
      else set_add v.selected_existing id;
}

-- A name that is null reads "null" in a sum of texts.
abbrev shown : Option Text → Text
shown none = codes "null"
shown (some t) = t

-- `filteredAvailable`: the contacts that are no members and that the search leaves; `lower` is
-- `toLowerCase`.
pub filtered_available : (Text → Text) → View → List Contact
unfolding contains
filtered_available lower v =
    filter
      (λ c.
        contains (lower (shown c.first_name ++ (b' ' ∷ shown c.last_name)))
          (lower v.search_existing)
        || contains c.phone_number v.search_existing)
      (filter (λ c. not (includes (map (λ m. m.id) v.members) c.id)) v.all_contacts)

-- `handleRemoveMember`
pub handle_remove_member : Bool → ℕ → View → View
unfolding fetch_members
handle_remove_member true contact v =
    refresh (notify (say "Member removed") success (call (remove_member v.segment contact) v))
handle_remove_member false contact v =
    notify (say "Failed to remove member") error (call (remove_member v.segment contact) v)

abbrev not_added : View → View
not_added v = record (notify (say "Failed to add contact") error v) { is_saving_manual = false }

-- The members are shown again.
abbrev pub back_to_members : View → View
unfolding fetch_members set_active_tab
back_to_members v = set_active_tab members_tab (refresh v)

abbrev added_to_list : List Part → View → View
unfolding fetch_members set_active_tab
added_to_list message v =
    record (back_to_members
      (record (notify message success v) { new_contact = blank_contact; draft_saved = false })) {
        is_saving_manual = false;
      }

-- `handleManualAdd`: the answer to the first request holds the contact's id; `added` is the answer
-- to the second one, which is only sent for a segment with an id.
pub handle_manual_add : Option ℕ → Bool → View → View
unfolding fetch_members set_active_tab
handle_manual_add none added v = not_added (call (create_contact v.new_contact) v)
handle_manual_add (some id) added v =
    let created = call (create_contact v.new_contact) v in
    if v.segment == 0
    then added_to_list (say "Contact created successfully!") created
    else if added
    then added_to_list (say "Contact created and added to segment!")
        (call (add_to_segment v.segment id) created)
    else not_added (call (add_to_segment v.segment id) created)

-- `handleDeleteSegment`
pub handle_delete_segment : Bool → View → View
handle_delete_segment true v =
    let told = notify (say "Segment deleted") success (call (delete_segment v.segment) v) in
    record told {
      confirm_action = no_action;
      updates = told.updates + 1;
      left = true;
      is_deleting = false;
    }
handle_delete_segment false v =
    record (notify (say "Failed to delete segment") error (call (delete_segment v.segment) v)) {
      is_deleting = false;
    }
