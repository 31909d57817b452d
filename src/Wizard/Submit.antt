-- ===== src/Wizard/Submit.antt =====
-- Saving, broadcasting and confirming (`handleSubmit`, `handleBroadcastClick`, `confirmBroadcast`).
pub mod Outcome
use Prim.Native.String
use text.Mathlib.Text.{◌==◌ as str_eq}
use nexra.Prelude.{
  ℕ, ◌+◌, String, Bool, true, false, not, Option, none, some, List, [], ◌∷◌, ◌++◌, Text, ◌==◌,
  if◌then◌else◌, is_empty, filter, length, includes,
}
use nexra.Toasts.{success, error, info}
use nexra.Wizard.{
  no_items, Group, Form, Draft, CheckoutCampaign, Payload, Call, create_campaign, update_campaign,
  broadcast, broadcast_with, Notice, Wizard, Detail, worded, many, Answer, ok, failed, notify, call,
  create_contact, NewContact, blank_contact, Contact,
}

abbrev nonempty : Text → Option Text
nonempty [] = none
nonempty (c ∷ s) = some (c ∷ s)

pub payload : Wizard → Payload
payload w = record {
  form = w.form;
  scheduled_at = nonempty w.form.scheduled_at;
  contact_ids = w.selected_contacts;
  group_ids = w.selected_groups;
  raw_contacts = w.raw_contacts;
  contact_persistence = w.contact_persistence;
  group_name = w.group_name;
}

abbrev prefixed : String → String → String
prefixed a b = String.◌++◌ a b

-- `detail || 'Unknown error'`
abbrev or_unknown : String → String
or_unknown detail = if str_eq detail "" then "Unknown error" else detail

-- The toast of a failure. An empty list of messages makes the handler itself fail before it.
pub report_failure : Option Detail → Wizard → Wizard
report_failure none w = notify "Action failed: Unknown error" error w
report_failure (some (worded detail)) w =
    notify (prefixed "Action failed: " (or_unknown detail)) error w
report_failure (some (many [])) w = w
report_failure (some (many (message ∷ rest))) w =
    notify (prefixed "Action failed: " message) error w

-- `clearSessionState` and the move to the list of campaigns.
abbrev pub leave : Wizard → Wizard
leave w = record w { saved = no_items; left = true }

abbrev start_loading : Wizard → Wizard
start_loading w = record w { loading = true }

abbrev stop_loading : Wizard → Wizard
stop_loading w = record w { loading = false }

-- The catch block: nothing is returned.
abbrev give_up : Option Detail → Wizard → Wizard × Option ℕ
unfolding report_failure
give_up detail w = (stop_loading (report_failure detail w), none)

-- The end of the try block, once the campaign has the identity `id`.
abbrev finish : Bool → ℕ → Wizard → Wizard × Option ℕ
finish redirect id w = (stop_loading (if redirect then leave w else w), some id)

abbrev ask_broadcast : ℕ → Wizard → Wizard
ask_broadcast id w = call (broadcast id) (notify "Starting broadcast..." info w)

abbrev send : Bool → Bool → Answer (Unit {0}) → ℕ → Wizard → Wizard × Option ℕ
unfolding give_up
send should_broadcast redirect sent id w =
    if should_broadcast
    then elim sent [
      | ok _ ↦
          finish redirect id
            (notify "Broadcast initiated successfully!" success (ask_broadcast id w))
      | failed detail ↦ give_up detail (ask_broadcast id w)
    ]
    else finish redirect id w

-- `handleSubmit(shouldBroadcast, redirect)`: `stored` answers the saving request, `sent` the
-- broadcast. The result is the campaign's identity, or nothing.
pub handle_submit : Bool → Bool → Answer ℕ → Answer (Unit {0}) → Wizard → Wizard × Option ℕ
unfolding payload give_up send
handle_submit should_broadcast redirect stored sent w = elim w.edit_id [
  | some edit_id ↦
      let asked = call (update_campaign edit_id (payload w)) (start_loading w) in
      elim stored [
        | ok _ ↦
            send should_broadcast redirect sent edit_id
              (notify "Campaign details updated" success asked)
        | failed detail ↦ give_up detail asked
      ]
  | none ↦
      let asked = call (create_campaign (payload w)) (start_loading w) in
      elim stored [
        | ok id ↦
            send should_broadcast redirect sent id (notify "Campaign record saved" success asked)
        | failed detail ↦ give_up detail asked
      ]
]

abbrev sum_counts : List Group → ℕ
sum_counts [] = 0
sum_counts (g ∷ gs) = g.contact_count + sum_counts gs

pub group_recipients : Wizard → ℕ
group_recipients w = sum_counts (filter (λ g. includes w.selected_groups g.id) w.groups)

pub total_recipients : Wizard → ℕ
unfolding group_recipients
total_recipients w = length w.selected_contacts + group_recipients w + length w.raw_contacts

-- The number of recipients in the summary of step 4.
pub summary_recipients : Wizard → ℕ
unfolding group_recipients
summary_recipients w = length w.selected_contacts + group_recipients w

abbrev open_checkout : Wizard → ℕ → Wizard → Wizard
unfolding total_recipients
open_checkout before id w = record w {
  checkout_campaign = some (record {
    id = id;
    name = before.form.name;
    template = before.form.template;
    total_recipients = total_recipients before;
  });
}

-- After `handleSubmit(false, false)`; no identity, or the identity 0, opens no checkout.
abbrev after_submit : Wizard → Wizard × Option ℕ → Wizard
unfolding open_checkout
after_submit before (w, none) = w
after_submit before (w, some id) = if id == 0 then w else open_checkout before id w

pub handle_broadcast_click : Answer ℕ → Wizard → Wizard
unfolding handle_submit after_submit
handle_broadcast_click stored w = after_submit w (handle_submit false false stored (failed none) w)

pub close_checkout : Wizard → Wizard
close_checkout w = record w { checkout_campaign = none }

-- A list of objects, as the language turns it into a text.
abbrev object_list : List String → String
object_list [] = ""
object_list (m ∷ []) = "[object Object]"
object_list (m ∷ n ∷ ms) = prefixed "[object Object]," (object_list (n ∷ ms))

abbrev pub failure_text : Option Detail → String
failure_text none = "Unknown error"
failure_text (some (worded detail)) = or_unknown detail
failure_text (some (many messages)) = object_list messages

pub confirm_broadcast : Bool → Answer (Unit {0}) → Wizard → Wizard
confirm_broadcast use_payg sent w = elim w.checkout_campaign [
  | none ↦ w
  | some c ↦
      let asked = call (broadcast_with c.id use_payg) (
        notify "Starting broadcast..." info
          (record w { checkout_campaign = none; loading = true })) in
      elim sent [
        | ok _ ↦ stop_loading (leave (notify "Broadcast started successfully!" success asked))
        | failed detail ↦
            stop_loading (notify (prefixed "Broadcast failed: " (failure_text detail)) error asked)
      ]
]

-- `handleAddManualContact`: the contact is saved at once and selected.
pub handle_add_manual_contact : Answer Contact → Wizard → Wizard
handle_add_manual_contact stored w =
    if is_empty w.new_contact.phone_number
    then w
    else let asked = call (create_contact w.new_contact) w in
      elim stored [
        | ok c ↦ record asked {
          draft = record (w.draft) { selected_contacts = w.selected_contacts ++ c.id ∷ [] };
          contacts = w.contacts ++ c ∷ [];
          new_contact = blank_contact;
          is_saving_contact = false;
        }
        | failed detail ↦
            record (notify (prefixed "Failed to save contact: " (failure_text detail)) error
              asked) { is_saving_contact = false }
      ]
