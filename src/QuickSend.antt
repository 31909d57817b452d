-- ===== src/QuickSend.antt =====
-- nexra-dashboard/src/components/QuickSendModal.js: one message to numbers that are typed or picked.
-- `calls` and `notices` log the requests sent and the toasts shown; the handler takes the answers to
-- its requests as arguments. The name of the campaign, which holds the time, is an argument.
pub mod Numbers
pub mod Outcome
mod Tests
use text.Mathlib.Text.{◌==◌ as str_eq}
use nexra.Prelude.{
  ℕ, ◌+◌, ◌/◌, String, Bool, true, false, not, ◌&&◌, ◌||◌, Option, none, some, List, [], ◌∷◌, ◌++◌,
  Text, codes, ◌==◌, ltb, leb, if◌then◌else◌, is_empty, filter, map, length, trim, split, split_on,
  join, text_eq, any,
}
use nexra.Phone.{is_dialable}
use nexra.Toasts.{Variant, success, error}
use nexra.Recipients.{Picked, first_or_empty}
use nexra.Wizard.{RawContact, Detail, worded, many, Answer, ok, failed}

pub record Form : Type 0 where
  pub recipient : Text
  pub sender : Text
  pub message : Text

-- What the request holds.
pub record Payload : Type 0 where
  pub name : Text
  pub template : Text
  pub sender : Text
  pub scheduled_at : Option Text
  pub contact_ids : List ℕ
  pub group_ids : List ℕ
  pub raw_contacts : List RawContact
  pub contact_persistence : Text
  pub group_name : Text

pub data Call : Type 0 where
  create_campaign : Payload → Call
  broadcast : ℕ → Call

pub data Notice : Type 0 where
  no_sender enqueued : Notice
  added_from_phonebook : ℕ → Notice
  failure : String → Notice

pub record QuickSend : Type 0 where
  pub loading : Bool
  pub form : Form
  pub is_contact_picker_supported : Bool
  pub is_open : Bool
  pub sent_count : ℕ
  pub calls : List Call
  pub notices : List Notice

abbrev pub notify : Notice → QuickSend → QuickSend
notify n q = record q { notices = q.notices ++ n ∷ [] }

abbrev pub call : Call → QuickSend → QuickSend
call c q = record q { calls = q.calls ++ c ∷ [] }

abbrev pub blank_form : Form
blank_form = record { recipient = []; sender = []; message = [] }

abbrev nonempty : Text → Bool
nonempty t = not (is_empty t)

-- `recipient.split(',').map(r => r.trim()).filter(r => r)`
pub recipients : Text → List Text
unfolding trim split_on
recipients t = filter nonempty (map trim (split b',' t))

-- `[...new Set(ts)]`: the first occurrences.
abbrev pub unique_from : List Text → List Text → List Text
unique_from seen [] = []
unique_from seen (t ∷ ts) = elim (any (text_eq t) seen) [
  | true ↦ unique_from seen ts
  | false ↦ t ∷ unique_from (t ∷ seen) ts
]

abbrev pub unique : List Text → List Text
unique ts = unique_from [] ts

-- The numbers of the contacts that are picked.
unfoldable pub phones_of : List Picked → List Text
unfolding is_dialable
phones_of cs = filter nonempty (map (λ c. filter is_dialable (first_or_empty c.tel)) cs)

-- `none` is a picker that failed or was cancelled.
pub handle_select_phone_contacts : Option (List Picked) → QuickSend → QuickSend
unfolding recipients phones_of
handle_select_phone_contacts none q = q
handle_select_phone_contacts (some selected) q =
    if not q.is_contact_picker_supported || is_empty (phones_of selected)
    then q
    else notify (added_from_phonebook (length (phones_of selected))) (record q {
      form = record (q.form) {
        recipient = join (codes ", ") (unique (recipients q.form.recipient ++ phones_of selected));
      };
    })

-- The number of parts that the modal shows, and the limit on the characters.
pub sms_count : ℕ → ℕ
sms_count len = if len == 0 then 0 else if leb len 160 then 1 else (len + 152) / 153

abbrev pub is_over_limit : ℕ → Bool
is_over_limit len = ltb 612 len

-- The button "Transmit Now".
pub can_transmit : QuickSend → Bool
can_transmit q = not (
    q.loading
    || is_empty q.form.recipient
    || is_empty q.form.message
    || is_over_limit (length q.form.message))

pub payload : Text → Form → Payload
unfolding recipients
payload name f = record {
  name = name;
  template = f.message;
  sender = f.sender;
  scheduled_at = none;
  contact_ids = [];
  group_ids = [];
  raw_contacts = map (λ t. record { name = []; phone = t }) (recipients f.recipient);
  contact_persistence = codes "temporary";
  group_name = [];
}

-- The toast of a failure. An empty list of messages makes the handler itself fail before it.
pub report_failure : Option Detail → QuickSend → QuickSend
report_failure none q = notify (failure "Failed to send message") q
report_failure (some (worded detail)) q =
    notify (failure (if str_eq detail "" then "Failed to send message" else detail)) q
report_failure (some (many [])) q = q
report_failure (some (many (message ∷ rest))) q = notify (failure message) q

abbrev stop : QuickSend → QuickSend
stop q = record q { loading = false }

-- `handleSubmit`: the answers to the creating request and to the broadcast.
pub handle_submit : Text → Answer ℕ → Answer (Unit {0}) → QuickSend → QuickSend
unfolding payload report_failure
handle_submit name created sent q =
    if is_empty q.form.sender
    then notify no_sender q
    else let asked = call (create_campaign (payload name q.form)) q in
      elim created [
        | failed detail ↦ stop (report_failure detail asked)
        | ok id ↦ elim sent [
          | failed detail ↦ stop (report_failure detail (call (broadcast id) asked))
          | ok _ ↦ record (notify enqueued (call (broadcast id) asked)) {
            sent_count = q.sent_count + 1;
            is_open = false;
            form = blank_form;
            loading = false;
          }
        ]
      ]
