-- ===== src/SenderIds/Requests.antt =====
-- nexra-dashboard/src/pages/SenderIDManagement.js: the handlers of the page.
pub mod Outcome
use nexra.Prelude.{
  ℕ, String, Bool, true, false, not, ◌&&◌, ◌||◌, Option, none, some, List, [], ◌∷◌, ◌++◌, Text,
  trim, ltb, length, is_empty, if◌then◌else◌, ◌==◌,
}
use nexra.Toasts.{success, error}
use nexra.Wizard.{Notice}
use nexra.SenderIds.{
  Item, Form, Body, SenderIds, Answer, ok, failed, detail_or, notify, call, or_null, clean_id,
  list_sender_ids, pending_queue, history_queue, request_sender_id, admin_add, patch_status,
  empty_form,
}

-- `fetchSenderIds` and its answer; `null` for the data counts as no items.
pub fetch_sender_ids : SenderIds → SenderIds
fetch_sender_ids p = call list_sender_ids (record p { loading = true })

abbrev items_or_empty : Option (List Item) → List Item
items_or_empty none = []
items_or_empty (some items) = items

pub fetched : Option (Option (List Item)) → SenderIds → SenderIds
fetched none p = record (notify "Failed to load Sender IDs" error p) { loading = false }
fetched (some items) p = record p { sender_ids = items_or_empty items; loading = false }

-- `fetchAdminQueues`: both requests go out together, and one failure fails both.
pub fetch_admin_queues : SenderIds → SenderIds
fetch_admin_queues p = call history_queue (call pending_queue (record p { admin_loading = true }))

pub queues_fetched :
    Option (Option (List Item)) → Option (Option (List Item)) → SenderIds → SenderIds
queues_fetched (some waiting) (some decided) p = record p {
  pending_requests = items_or_empty waiting;
  history_requests = items_or_empty decided;
  admin_loading = false;
}
queues_fetched _ _ p = record (notify "Failed to load sender ID review queue" error p) {
  admin_loading = false;
}

-- The body of the request for a form whose cleaned sender ID is `clean`.
pub body_of : Text → Form → Body
unfolding trim
body_of clean f = record {
  sender_id = clean;
  company_name = or_null (trim f.company_name);
  username = or_null (trim f.username);
  use_case = trim f.use_case;
  website_or_social = or_null (trim f.website_or_social);
  official_email = or_null (trim f.official_email);
  registration_certificate = or_null (trim f.registration_certificate);
  authorization_letter = or_null (trim f.authorization_letter);
}

-- What the guards of `handleRequest` say, in their order.
pub refusal : Text → Form → Option String
unfolding trim
refusal clean f =
    if is_empty clean || ltb (length clean) 3
    then some "Sender ID must be at least 3 alphanumeric characters"
    else if is_empty (trim f.use_case) || ltb (length (trim f.use_case)) 10
    then some "Please describe the use case in at least 10 characters."
    else if is_empty (trim f.company_name) && is_empty (trim f.username)
    then some "Please provide either a company name or a username."
    else none

-- `handleRequest` from its start to its end.
pub handle_request : (Text → Text) → Answer → SenderIds → SenderIds
unfolding clean_id refusal body_of fetch_sender_ids detail_or
handle_request upper answer p =
    let clean = clean_id upper p.request_form.sender_id in
    elim (refusal clean p.request_form) [
      | some message ↦ notify message error p
      | none ↦
          let sent =
            call (request_sender_id (body_of clean p.request_form))
              (record p { is_submitting = true }) in
          elim answer [
            | ok ↦
                record (fetch_sender_ids
                  (record (notify "Sender ID requested successfully!" success sent) {
                    request_form = empty_form;
                  })) { is_submitting = false }
            | failed detail ↦ record (notify (detail_or detail "Request failed") error sent) {
              is_submitting = false;
            }
          ]
    ]

-- `handleAdminAdd`, which keeps the other fields.
pub handle_admin_add : (Text → Text) → Answer → SenderIds → SenderIds
unfolding clean_id fetch_sender_ids detail_or
handle_admin_add upper answer p =
    let clean = clean_id upper p.request_form.sender_id in
    if is_empty clean || ltb (length clean) 3
    then notify "Sender ID must be at least 3 alphanumeric characters" error p
    else let sent = call (admin_add clean) (record p { is_submitting = true }) in
      elim answer [
        | ok ↦
            record (fetch_sender_ids (record (notify "Sender ID added successfully!" success sent) {
              request_form = record (p.request_form) { sender_id = [] };
            })) { is_submitting = false }
        | failed detail ↦ record (notify (detail_or detail "Add failed") error sent) {
          is_submitting = false;
        }
      ]

pub handle_review_comment_change : ℕ → Text → SenderIds → SenderIds
handle_review_comment_change id value p = record p {
  review_comments = λ i. if i == id then value else p.review_comments i;
}

-- `updateSenderStatus`: `queues` are the answers to the two requests that the list's own waits for.
pub update_sender_status :
    ℕ
    → Text
    → Answer
    → Option (Option (List Item))
    → Option (Option (List Item))
    → SenderIds
    → SenderIds
unfolding fetch_admin_queues queues_fetched fetch_sender_ids detail_or
update_sender_status id status answer waiting decided p =
    let sent = call (patch_status id status (or_null (p.review_comments id))) p in
    elim answer [
      | ok ↦ fetch_sender_ids (
          queues_fetched waiting decided
            (fetch_admin_queues (notify "Sender ID status updated" success sent)))
      | failed detail ↦ notify (detail_or detail "Failed to update status") error sent
    ]

pub open_request_details : Item → SenderIds → SenderIds
open_request_details item p = record p { detail_request = some item }

pub close_request_details : SenderIds → SenderIds
close_request_details p = record p { detail_request = none }

-- `handleDrawerStatusUpdate` closes the drawer, whatever the answer was.
pub handle_drawer_status_update :
    ℕ
    → Text
    → Answer
    → Option (Option (List Item))
    → Option (Option (List Item))
    → SenderIds
    → SenderIds
unfolding update_sender_status
handle_drawer_status_update id status answer waiting decided p =
    record (update_sender_status id status answer waiting decided p) { detail_request = none }

-- "Retry Request" of a rejected one: its name goes into the form and the drawer closes.
pub retry_request : Item → SenderIds → SenderIds
unfolding close_request_details
retry_request item p =
    close_request_details
      (record p { request_form = record (p.request_form) { sender_id = item.sender_id } })
