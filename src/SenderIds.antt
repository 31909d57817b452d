-- ===== src/SenderIds.antt =====
-- The names that messages are sent under: nexra-dashboard/src/pages/SenderIDManagement.js (the
-- requests), with SenderIDVerificationPage.js (the documents) and AdminApprovalPage.js (the review)
-- in child modules. `calls` and `notices` log the requests sent and the toasts shown; a handler
-- takes the answer to its request as an argument, and the answer to the fetch that it ends with
-- comes as an event of its own.
pub mod Cleaning
pub mod Summary
pub mod Requests
pub mod Documents
pub mod Review
mod Tests
use Prim.Native.String
use text.Mathlib.Text.{◌==◌ as str_eq}
use nexra.Prelude.{
  ℕ, ◌+◌, String, Bool, true, false, not, ◌&&◌, ◌||◌, Option, none, some, List, [], ◌∷◌, ◌++◌, Text,
  codes, text_eq, trim, leb, ltb, filter, length, take, is_empty, if◌then◌else◌,
}
use nexra.Toasts.{Variant, success, error}
use nexra.Wizard.{Notice}

pub record Item : Type 0 where
  pub id : ℕ
  pub sender_id : Text
  pub status : Option Text

pub record Form : Type 0 where
  pub sender_id : Text
  pub company_name : Text
  pub username : Text
  pub use_case : Text
  pub website_or_social : Text
  pub official_email : Text
  pub registration_certificate : Text
  pub authorization_letter : Text

abbrev pub empty_form : Form
empty_form = record {
  sender_id = [];
  company_name = [];
  username = [];
  use_case = [];
  website_or_social = [];
  official_email = [];
  registration_certificate = [];
  authorization_letter = [];
}

-- The body of a request for a sender ID.
pub record Body : Type 0 where
  pub sender_id : Text
  pub company_name : Option Text
  pub username : Option Text
  pub use_case : Text
  pub website_or_social : Option Text
  pub official_email : Option Text
  pub registration_certificate : Option Text
  pub authorization_letter : Option Text

pub data Call : Type 0 where
  list_sender_ids pending_queue history_queue : Call
  request_sender_id : Body → Call
  admin_add : Text → Call
  patch_status : ℕ → Text → Option Text → Call

pub record SenderIds : Type 0 where
  pub sender_ids : List Item
  pub pending_requests : List Item
  pub history_requests : List Item
  pub loading : Bool
  pub admin_loading : Bool
  pub is_submitting : Bool
  pub status_filter : Text
  pub review_comments : ℕ → Text
  pub detail_request : Option Item
  pub request_form : Form
  pub calls : List Call
  pub notices : List Notice

pub data Answer : Type 0 where
  ok : Answer
  failed : Option String → Answer

-- `error.response?.data?.detail || d`
pub detail_or : Option String → String → String
detail_or none d = d
detail_or (some detail) d = if str_eq detail "" then d else detail

abbrev pub notify : String → Variant → SenderIds → SenderIds
notify message variant p = record p {
  notices = p.notices ++ record { message = message; variant = variant } ∷ [];
}

abbrev pub call : Call → SenderIds → SenderIds
call c p = record p { calls = p.calls ++ c ∷ [] }

-- `s || null` and `s || d`.
abbrev pub or_null : Text → Option Text
or_null [] = none
or_null (c ∷ s) = some (c ∷ s)

-- `(status || 'pending').toLowerCase()`
abbrev pub or_pending : Option Text → Text
or_pending none = codes "pending"
or_pending (some []) = codes "pending"
or_pending (some (c ∷ s)) = c ∷ s

pub data Badge : Type 0 where
  approved need_verification rejected pending : Badge

-- `statusMeta`, by the badge whose label, colour and icon it returns; `lower` is `toLowerCase`.
pub status_meta : (Text → Text) → Option Text → Badge
unfolding text_eq
status_meta lower status =
    let normalized = lower (or_pending status) in
    if text_eq normalized (codes "approved")
    then approved
    else if text_eq normalized (codes "need_verification")
    then need_verification
    else if text_eq normalized (codes "rejected")
    then rejected
    else pending

-- `getUseCasePreview` of the use case: at most 90 units, then an ellipsis.
pub use_case_preview : Text → Text
unfolding trim
use_case_preview use_case =
    let text = trim use_case in
    if is_empty text
    then codes "No use case provided"
    else if ltb 90 (length text)
    then take 90 text ++ 0x2026 ∷ []
    else text

-- The units that `/[^A-Z0-9]/g` keeps.
abbrev pub is_id_unit : ℕ → Bool
is_id_unit c = (leb b'A' c && leb c b'Z') || (leb b'0' c && leb c b'9')

-- `sender_id.trim().toUpperCase().replace(/[^A-Z0-9]/g, '')`; `upper` is `toUpperCase`.
pub clean_id : (Text → Text) → Text → Text
unfolding trim
clean_id upper s = filter is_id_unit (upper (trim s))

-- `filteredSenderIds`, and the counts of `renderStatusSummary`.
abbrev pub has_status : (Text → Text) → Text → Item → Bool
has_status lower key item = text_eq (lower (or_pending item.status)) key

pub filtered_sender_ids : (Text → Text) → SenderIds → List Item
unfolding text_eq
filtered_sender_ids lower p =
    if text_eq p.status_filter (codes "all")
    then p.sender_ids
    else filter (has_status lower p.status_filter) p.sender_ids

pub status_count : (Text → Text) → List Item → Text → ℕ
unfolding text_eq
status_count lower items key =
    if text_eq key (codes "all") then length items else length (filter (has_status lower key) items)
