-- ===== src/Contacts/Directory.antt =====
-- nexra-dashboard/src/pages/ContactsPage.js: all contacts (`GlobalContactsView`, with the dialog that
-- edits one) and the page of the segments (`ContactsPage`).
pub mod Listed
use nexra.Prelude.{
  ℕ, String, Bool, true, false, not, ◌||◌, ◌&&◌, Option, none, some, List, [], ◌∷◌, ◌++◌, Text,
  codes, filter, contains, if◌then◌else◌, is_empty,
}
use nexra.Toasts.{Variant, success, error}
use nexra.Wizard.{Notice}
use nexra.SenderIds.{Answer, ok, failed}
use nexra.Contacts.{Contact, Group}
use nexra.Contacts.Dedupe.{deduplicate}

-- The form of the dialog; absent values are shown empty.
pub record ContactForm : Type 0 where
  pub first_name : Text
  pub last_name : Text
  pub phone_number : Text

pub data Call : Type 0 where
  list_contacts : Call
  delete_contact : ℕ → Call
  patch_contact : ℕ → ContactForm → Call

pub record Directory : Type 0 where
  pub contacts : List Contact
  pub loading : Bool
  pub search_query : Text
  pub editing_contact : Option Contact
  pub form : ContactForm
  pub is_saving : Bool
  pub confirm_delete : Option ℕ
  pub calls : List Call
  pub notices : List Notice

abbrev notify : String → Variant → Directory → Directory
notify message variant p = record p {
  notices = p.notices ++ record { message = message; variant = variant } ∷ [];
}

abbrev call : Call → Directory → Directory
call c p = record p { calls = p.calls ++ c ∷ [] }

abbrev or_empty : Option Text → Text
or_empty none = []
or_empty (some t) = t

-- `fetchContacts` and its answer, whose items may be absent.
pub fetch_contacts : Directory → Directory
fetch_contacts p = call list_contacts (record p { loading = true })

abbrev or_no_contacts : Option (List Contact) → List Contact
or_no_contacts none = []
or_no_contacts (some cs) = cs

pub fetched : Option (Option (List Contact)) → Directory → Directory
fetched none p = record (notify "Failed to load contacts" error p) { loading = false }
fetched (some items) p = record p { contacts = deduplicate (or_no_contacts items); loading = false }

-- A name inside a template text: an absent one reads `null`.
abbrev pub printed : Option Text → Text
printed none = codes "null"
printed (some t) = t

-- The test of `filteredContacts`; `lower` is `toLowerCase`.
pub is_found : (Text → Text) → Text → Contact → Bool
unfolding contains
is_found lower query c =
    contains (lower (printed c.first_name ++ (b' ' ∷ printed c.last_name))) (lower query)
    || contains c.phone_number query

pub filtered_contacts : (Text → Text) → Directory → List Contact
filtered_contacts lower p = filter (is_found lower p.search_query) p.contacts

-- `handleDeleteContact` for the contact that the dialog holds.
pub handle_delete_contact : Answer → Directory → Directory
unfolding fetch_contacts
handle_delete_contact answer p = elim p.confirm_delete [
  | none ↦ p
  | some id ↦ elim answer [
    | ok ↦
        fetch_contacts
          (record (notify "Contact deleted successfully" success (call (delete_contact id) p)) {
            confirm_delete = none;
          })
    | failed detail ↦ notify "Failed to delete contact" error (call (delete_contact id) p)
  ]
]

-- Opening the dialog fills its form.
pub edit : Contact → Directory → Directory
edit c p = record p {
  editing_contact = some c;
  form = record {
    first_name = or_empty c.first_name;
    last_name = or_empty c.last_name;
    phone_number = c.phone_number;
  };
}

-- `handleSubmit` of the dialog.
pub handle_save : Answer → Directory → Directory
unfolding fetch_contacts
handle_save answer p = elim p.editing_contact [
  | none ↦ p
  | some c ↦
      let sent = call (patch_contact c.id p.form) p in
      elim answer [
        | ok ↦ record (fetch_contacts (notify "Contact updated successfully!" success sent)) {
          editing_contact = none;
          is_saving = false;
        }
        | failed detail ↦ record (notify "Failed to update contact." error sent) {
          is_saving = false;
        }
      ]
]

pub record SegmentForm : Type 0 where
  pub name : Text
  pub description : Text

abbrev pub no_segment : SegmentForm
no_segment = record { name = []; description = [] }

pub data SegmentsCall : Type 0 where
  list_groups : SegmentsCall
  create_group : SegmentForm → SegmentsCall

-- `stored` is the draft in the session's storage; it is written after every render that changed the
-- form.
pub record Segments : Type 0 where
  pub groups : List Group
  pub groups_loading : Bool
  pub segment_search : Text
  pub open_segment : Option Group
  pub show_create_modal : Bool
  pub new_group : SegmentForm
  pub stored : Option SegmentForm
  pub segments_calls : List SegmentsCall
  pub segments_notices : List Notice

abbrev tell : String → Variant → Segments → Segments
tell message variant p = record p {
  segments_notices = p.segments_notices ++ record { message = message; variant = variant } ∷ [];
}

abbrev ask : SegmentsCall → Segments → Segments
ask c p = record p { segments_calls = p.segments_calls ++ c ∷ [] }

pub fetch_groups : Segments → Segments
fetch_groups p = ask list_groups (record p { groups_loading = true })

pub groups_fetched : Option (List Group) → Segments → Segments
groups_fetched none p = record (tell "Failed to load segments" error p) { groups_loading = false }
groups_fetched (some groups) p = record p { groups = groups; groups_loading = false }

-- The first render takes the draft; the effect stores the form.
pub restored : Option SegmentForm → SegmentForm
restored none = no_segment
restored (some draft) = draft

pub type_group : SegmentForm → Segments → Segments
type_group form p = record p { new_group = form; stored = some form }

-- `handleCreateGroup`: the answer is the new segment, or a failure. The draft is removed, and the
-- emptied form is stored again by the effect.
pub handle_create_group : Option Group → Segments → Segments
unfolding fetch_groups
handle_create_group none p =
    tell "Failed to create segment" error (ask (create_group p.new_group) p)
handle_create_group (some group) p =
    record (fetch_groups
      (record (tell "Segment created!" success (ask (create_group p.new_group) p)) {
        show_create_modal = false;
        new_group = no_segment;
      })) { open_segment = some group; stored = some no_segment }

-- `filteredGroups`.
pub filtered_groups : (Text → Text) → Segments → List Group
unfolding contains
filtered_groups lower p =
    filter
      (λ g.
        contains (lower g.name) (lower p.segment_search)
        || (not (is_empty g.description)
            && contains (lower g.description) (lower p.segment_search)))
      p.groups
