-- ===== src/Wizard/Session.antt =====
-- The draft in the session storage: the effect that saves it, and what the first rendering reads.
pub mod Reload
use nexra.Prelude.{
  ℕ, ◌≡◌, Bool, true, false, Option, none, some, List, [], ◌∷◌, Text, codes, ◌==◌, if◌then◌else◌,
  refl,
}
use nexra.Wizard.{
  SessionItems, Draft, Wizard, Answer, ok, failed, blank_contact, blank_draft, is_edit_mode,
  Contact, Group,
}

-- The effect after a change of the draft; nothing is saved while a campaign is edited.
pub save_draft : Wizard → Wizard
save_draft w = elim w.edit_id [
  | none ↦ record w {
    saved = record {
      cc_step = some w.step;
      cc_form_data = some w.form;
      cc_selected_contacts = some w.selected_contacts;
      cc_raw_contacts = some w.raw_contacts;
      cc_persistence = some w.contact_persistence;
      cc_group_name = some w.group_name;
      cc_selected_groups = some w.selected_groups;
    };
  }
  | some id ↦ w
]

-- `item || d` on a text, and `parseInt(item) || 1`.
abbrev text_or : Option Text → Text → Text
text_or none d = d
text_or (some []) d = d
text_or (some (c ∷ s)) d = c ∷ s

abbrev step_or_one : Option ℕ → ℕ
step_or_one none = 1
step_or_one (some n) = if n == 0 then 1 else n

-- `saved ? JSON.parse(saved) : d`; the text of a value is never empty.
abbrev parsed_or {ℓ} : {A : Type ℓ} → Option A → A → A
parsed_or none d = d
parsed_or (some x) d = x

pub restore_draft : SessionItems → Draft
restore_draft items = record {
  step = step_or_one items.cc_step;
  form =
      parsed_or items.cc_form_data
        (record { name = []; sender = []; template = []; scheduled_at = [] });
  selected_contacts = parsed_or items.cc_selected_contacts [];
  raw_contacts = parsed_or items.cc_raw_contacts [];
  contact_persistence = text_or items.cc_persistence (codes "temporary");
  group_name = text_or items.cc_group_name [];
  selected_groups = parsed_or items.cc_selected_groups [];
}

-- The wizard as it is first rendered.
pub open_wizard : Option ℕ → SessionItems → Wizard
unfolding restore_draft
open_wizard edit_id saved = record {
  draft = restore_draft saved;
  contacts = [];
  groups = [];
  loading = false;
  search_query = [];
  new_contact = blank_contact;
  is_saving_contact = false;
  show_contact_modal = false;
  show_group_modal = false;
  checkout_campaign = none;
  edit_id = edit_id;
  saved = saved;
  left = false;
  calls = [];
  notices = [];
}
