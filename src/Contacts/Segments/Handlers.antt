-- ===== src/Contacts/Segments/Handlers.antt =====
-- The uploads and the bulk additions of `SegmentDetailView`.
use Prim.Native.String
use nexra.Prelude.{
  ℕ, String, Bool, true, false, not, Option, none, some, List, [], ◌∷◌, if◌then◌else◌, is_empty,
  map, length,
}
use nexra.Toasts.{success, error, info}
use nexra.Contacts.{Contact, Group}
use nexra.Contacts.Segments.{
  View, UploadResult, upload_file, add_bulk, fetch_members_of, import_from, no_action, notify, call,
  back_to_members, set_active_tab, fetch_members, delete_it, say, word, number, name_of,
}

-- The `detail` of an error answer.
pub data Detail : Type 0 where
  messages : List String → Detail
  worded : String → Detail
  other : Detail

-- The answer to the upload. An error without a response is a network error; a status is shown as
-- the text it prints as.
pub data Upload : Type 0 where
  uploaded : UploadResult → Upload
  unreachable : Upload
  refused : (status : String) → Detail → Upload

abbrev joined : List String → String
joined [] = ""
joined (s ∷ []) = s
joined (s ∷ t ∷ ts) = String.◌++◌ s (String.◌++◌ " | " (joined (t ∷ ts)))

-- `message` of the catch block.
pub upload_message : Upload → Option String
upload_message (uploaded result) = none
upload_message unreachable =
    some
      "Could not reach the server. This is usually a temporary cold-start issue — please wait 10–15 seconds and try again. If it persists, check your connection."
upload_message (refused status (messages ms)) = some (joined ms)
upload_message (refused status (worded detail)) = some detail
upload_message (refused status other) = some (
    String.◌++◌ "Server error ("
      (String.◌++◌ status "). Please check your file format and try again."))

abbrev upload_failed : Option String → View → View
upload_failed message v = record (notify (say "Upload failed — see details below.") error v) {
  upload_error = message;
  is_uploading = false;
}

-- `handleUpload`: nothing happens without a file.
pub handle_upload : Upload → View → View
unfolding fetch_members set_active_tab
handle_upload answer v =
    if not v.has_upload_file
    then v
    else let sent =
        call (upload_file v.segment) (record v { upload_error = none; upload_result = none }) in
      elim answer [
        | uploaded result ↦
            record (back_to_members
              (record (notify
                (word "Upload complete! "
                  ∷ number result.group_added
                  ∷ word " added to segment."
                  ∷ [])
                success sent) { upload_result = some result; has_upload_file = false })) {
                  is_uploading = false;
                }
        | unreachable ↦ upload_failed (upload_message unreachable) sent
        | refused status detail ↦ upload_failed (upload_message (refused status detail)) sent
      ]

-- `handleBulkAddExisting`
pub handle_bulk_add_existing : Bool → View → View
unfolding fetch_members set_active_tab
handle_bulk_add_existing added v =
    if is_empty v.selected_existing
    then v
    else let sent = call (add_bulk v.segment v.selected_existing) v in
      if added
      then record (back_to_members
          (record (notify
            (word "Added " ∷ number (length v.selected_existing) ∷ word " contacts to segment" ∷ [])
            success sent) { selected_existing = [] })) { is_bulk_adding = false }
      else record (notify (say "Failed to bulk add contacts") error sent) { is_bulk_adding = false }

-- `handleSelectSegmentContacts`, and the buttons that ask to delete and that close the dialog.
pub handle_select_segment_contacts : Group → View → View
handle_select_segment_contacts source v = record v { confirm_action = import_from source }

pub ask_delete : View → View
ask_delete v = record v { confirm_action = delete_it }

pub close_dialog : View → View
close_dialog v = record v { confirm_action = no_action }

abbrev ids_of : List Contact → List ℕ
ids_of = map (λ c. c.id)

-- `confirmImport`: the contacts of the other segment, when they arrive, and whether the bulk request
-- succeeds.
unfoldable pub import_segment : Group → Option (List Contact) → Bool → View → View
unfolding fetch_members set_active_tab
import_segment source none added v =
    record (notify (say "Failed to add from segment") error (call (fetch_members_of source.id) v)) {
      is_bulk_adding = false;
    }
import_segment source (some []) added v =
    record (notify (say "That segment is empty.") info (call (fetch_members_of source.id) v)) {
      is_bulk_adding = false;
    }
import_segment source (some (c ∷ cs)) false v =
    record (notify (say "Failed to add from segment") error
      (call (add_bulk v.segment (ids_of (c ∷ cs))) (call (fetch_members_of source.id) v))) {
        is_bulk_adding = false;
      }
import_segment source (some (c ∷ cs)) true v =
    record (back_to_members
      (record (notify (word "Added contacts from " ∷ name_of source.name ∷ []) success
        (call (add_bulk v.segment (ids_of (c ∷ cs))) (call (fetch_members_of source.id) v))) {
          confirm_action = no_action;
        })) { is_bulk_adding = false }

unfoldable pub confirm_import : Option (List Contact) → Bool → View → View
unfolding import_segment
confirm_import contacts added v = elim v.confirm_action [
  | no_action ↦ v
  | import_from source ↦ import_segment source contacts added v
  | delete_it ↦ v
]
