-- ===== src/SenderIds/Tests.antt =====
-- A form that is complete, a list of three sender IDs and a rejection.
use nexra.Prelude.{
  ℕ, ◌-◌, ◌≡◌, refl, true, false, ◌&&◌, none, some, [], ◌∷◌, ◌++◌, Text, codes, leb, map,
  if◌then◌else◌, length,
}
use nexra.SenderIds.{
  Item, Form, empty_form, SenderIds, ok, clean_id, status_count, request_sender_id,
}
use nexra.SenderIds.Requests.{handle_request}
use nexra.SenderIds.Requests.Outcome.{
  wanted, is_complete, form_after, then_list, handle_request-outcome,
}
use nexra.SenderIds.Review.{
  Review, pending_tab, patch_status, approve, handle_action, is_sent, is_ok, note_of, queue_of,
  closed_for, handle_action-outcome,
}

-- `toUpperCase` on the letters a to z.
abbrev raise : ℕ → ℕ
raise c = if leb b'a' c && leb c b'z' then c - 32 else c

abbrev upper : Text → Text
upper = map raise

abbrev same : Text → Text
same t = t

abbrev form : Form
form = record empty_form {
  sender_id = codes " My-Brand ";
  company_name = codes "Ama Ltd";
  use_case = codes "order updates";
}

abbrev one : Item
one = record { id = 1; sender_id = codes "ONE"; status = some (codes "approved") }

abbrev two : Item
two = record { id = 2; sender_id = codes "TWO"; status = none }

abbrev three : Item
three = record { id = 3; sender_id = codes "THREE"; status = some (codes "expired") }

abbrev page : SenderIds
page = record {
  sender_ids = one ∷ two ∷ three ∷ [];
  pending_requests = [];
  history_requests = [];
  loading = false;
  admin_loading = false;
  is_submitting = false;
  status_filter = codes "all";
  review_comments = λ i. [];
  detail_request = none;
  request_form = form;
  calls = [];
  notices = [];
}

-- The hyphen of the name is dropped.
clean_id-hyphen : clean_id upper (codes " My-Brand ") ≡ codes "MYBRAND"
unfolding clean_id
clean_id-hyphen = refl

handle_request-outcome_example :
    let body = wanted upper form in
    let complete = is_complete body.sender_id form in
    let after = handle_request upper ok page in
    (after.calls ≡ (if complete then [] ++ request_sender_id body ∷ then_list ok else []))
    × (after.request_form ≡ (if complete then form_after ok form else form))
    × (after.is_submitting ≡ (if complete then false else false))
    × (length after.notices ≡ 1)
handle_request-outcome_example = handle_request-outcome upper ok page

-- Two badges say that a request is pending, and the count says one.
status_count-pending : status_count same (one ∷ two ∷ three ∷ []) (codes "pending") ≡ 1
unfolding status_count
status_count-pending = refl

abbrev review : Review
review = record {
  requests = two ∷ [];
  loading = false;
  tab = pending_tab;
  detail_request = some two;
  calls = [];
  notices = [];
}

handle_action-outcome_example :
    let after = handle_action 2 approve none ok review in
    let done = is_sent approve none && is_ok ok in
    (after.calls
      ≡ []
        ++ ((if is_sent approve none then patch_status 2 approve (note_of none) ∷ [] else [])
            ++ (if done then queue_of pending_tab ∷ [] else [])))
    × (after.detail_request ≡ (if done then closed_for 2 (some two) else some two))
    × (after.loading ≡ (if done then true else false))
handle_action-outcome_example = handle_action-outcome 2 approve none ok review
