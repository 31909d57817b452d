-- ===== src/Wizard.antt =====
-- nexra-dashboard/src/pages/CreateCampaignPage.js: the state of the campaign wizard: the draft that
-- the session storage keeps, the lists that were fetched, and the flags of the modals. `calls` and
-- `notices` log the requests sent and the toasts shown, in order. A handler that waits for requests
-- takes their answers as arguments and runs to its end.
pub mod Submit
pub mod Steps
pub mod Session
pub mod Preview
mod Tests
use nexra.Prelude.{
  ℕ, ◌+◌, String, Bool, true, false, not, Option, none, some, List, [], ◌∷◌, ◌++◌, Text, codes,
  ◌==◌, if◌then◌else◌, is_empty, map, filter, length, includes,
}
use nexra.Toasts.{Variant, success, error, info}

pub record Contact : Type 0 where
  pub id : ℕ
  pub first_name : Option Text
  pub last_name : Option Text
  pub phone_number : Text

pub record RawContact : Type 0 where
  pub name : Text
  pub phone : Text

pub record Group : Type 0 where
  pub id : ℕ
  pub name : Text
  pub contact_count : ℕ

pub record Form : Type 0 where
  pub name : Text
  pub sender : Text
  pub template : Text
  pub scheduled_at : Text

-- What the form holds that outlives a reload.
pub record Draft : Type 0 where
  pub step : ℕ
  pub form : Form
  pub selected_contacts : List ℕ
  pub raw_contacts : List RawContact
  pub contact_persistence : Text
  pub group_name : Text
  pub selected_groups : List ℕ

-- The seven items of the session storage. `JSON.parse` gives back what `JSON.stringify` was given, and
-- `parseInt` a number that was stored as a text, so an item holds the value that its text was made of.
pub record SessionItems : Type 0 where
  pub cc_step : Option ℕ
  pub cc_form_data : Option Form
  pub cc_selected_contacts : Option (List ℕ)
  pub cc_raw_contacts : Option (List RawContact)
  pub cc_persistence : Option Text
  pub cc_group_name : Option Text
  pub cc_selected_groups : Option (List ℕ)

abbrev pub no_items : SessionItems
no_items = record {
  cc_step = none;
  cc_form_data = none;
  cc_selected_contacts = none;
  cc_raw_contacts = none;
  cc_persistence = none;
  cc_group_name = none;
  cc_selected_groups = none;
}

pub record NewContact : Type 0 where
  pub first_name : Text
  pub last_name : Text
  pub phone_number : Text

pub record CheckoutCampaign : Type 0 where
  pub id : ℕ
  pub name : Text
  pub template : Text
  pub total_recipients : ℕ

-- The body of a saving request; `scheduled_at` is null for the empty text.
pub record Payload : Type 0 where
  pub form : Form
  pub scheduled_at : Option Text
  pub contact_ids : List ℕ
  pub group_ids : List ℕ
  pub raw_contacts : List RawContact
  pub contact_persistence : Text
  pub group_name : Text

pub data Call : Type 0 where
  create_campaign : Payload → Call
  update_campaign : ℕ → Payload → Call
  broadcast : ℕ → Call
  broadcast_with : ℕ → Bool → Call
  create_contact : NewContact → Call

pub record Notice : Type 0 where
  pub message : String
  pub variant : Variant

pub record Wizard : Type 0 where
  pub draft : Draft
  pub open draft use *
  pub contacts : List Contact
  pub groups : List Group
  pub loading : Bool
  pub search_query : Text
  pub new_contact : NewContact
  pub is_saving_contact : Bool
  pub show_contact_modal : Bool
  pub show_group_modal : Bool
  pub checkout_campaign : Option CheckoutCampaign
  pub edit_id : Option ℕ
  pub saved : SessionItems
  pub left : Bool
  pub calls : List Call
  pub notices : List Notice

abbrev pub blank_contact : NewContact
blank_contact = record { first_name = []; last_name = []; phone_number = [] }

abbrev pub blank_form : Form
blank_form = record { name = []; sender = []; template = []; scheduled_at = [] }

abbrev pub blank_draft : Draft
blank_draft = record {
  step = 1;
  form = blank_form;
  selected_contacts = [];
  raw_contacts = [];
  contact_persistence = codes "temporary";
  group_name = [];
  selected_groups = [];
}

-- The detail of a failed request: a text, or a list of validation messages.
pub data Detail : Type 0 where
  worded : String → Detail
  many : List String → Detail

pub data Answer {ℓ} (A : Type ℓ) : Type ℓ where
  ok : A → Answer A
  failed : Option Detail → Answer A

abbrev pub notify : String → Variant → Wizard → Wizard
notify message variant w = record w {
  notices = w.notices ++ record { message = message; variant = variant } ∷ [];
}

abbrev pub call : Call → Wizard → Wizard
call c w = record w { calls = w.calls ++ c ∷ [] }

abbrev pub is_edit_mode : Wizard → Bool
is_edit_mode w = elim w.edit_id [ none ↦ false | some id ↦ true ]
