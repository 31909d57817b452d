-- ===== src/Wizard/Steps.antt =====
-- What the four steps of the wizard let the user do. A button acts only on its step and while it is
-- enabled; the two selection modals act while they are open.
pub mod Guards
use nexra.Prelude.{
  ℕ, ◌+◌, ◌≡◌, Bool, true, false, not, ◌&&◌, ◌||◌, Option, none, some, List, [], ◌∷◌, ◌++◌, Text,
  codes, ◌==◌, leb, ltb, if◌then◌else◌, is_empty, filter, map, length, includes, take, drop,
  contains,
}
use nexra.Wizard.{Contact, RawContact, Group, Form, Draft, NewContact, Wizard, blank_contact}

abbrev pub with_form : Form → Wizard → Wizard
with_form f w = record w { draft = record (w.draft) { form = f } }

abbrev pub go_to : ℕ → Wizard → Wizard
go_to n w = record w { draft = record (w.draft) { step = n } }

abbrev with_contacts : List ℕ → Wizard → Wizard
with_contacts ids w = record w { draft = record (w.draft) { selected_contacts = ids } }

abbrev with_groups : List ℕ → Wizard → Wizard
with_groups ids w = record w { draft = record (w.draft) { selected_groups = ids } }

abbrev pub has_recipients : Wizard → Bool
has_recipients w =
    not (is_empty w.selected_contacts && is_empty w.selected_groups && is_empty w.raw_contacts)

-- The longest template.
abbrev pub limit : ℕ
limit = 612

-- The tag in braces, in place of the selection from `start` to `end`.
pub insert_tag : Text → ℕ → ℕ → Text → Text
insert_tag tag start end template =
    take start template ++ (b'{' ∷ tag ++ (b'}' ∷ drop end template))

-- A name that is null reads "null" in a sum of texts.
abbrev shown : Option Text → Text
shown none = codes "null"
shown (some t) = t

abbrev full_name : Contact → Text
full_name c = shown c.first_name ++ (b' ' ∷ shown c.last_name)

-- `filteredContacts`; `lower` is `toLowerCase`.
pub filtered_contacts : (Text → Text) → Wizard → List Contact
filtered_contacts lower w =
    filter
      (λ c.
        contains (lower (full_name c)) (lower w.search_query)
        || contains c.phone_number w.search_query)
      w.contacts

abbrev ids_of : List Contact → List ℕ
ids_of = map (λ c. c.id)

pub handle_select_all : (Text → Text) → Bool → Wizard → Wizard
unfolding filtered_contacts
handle_select_all lower checked w =
    with_contacts (if checked then ids_of (filtered_contacts lower w) else []) w

-- The state of the "Select All" box.
pub all_selected : (Text → Text) → Wizard → Bool
unfolding filtered_contacts
all_selected lower w =
    ltb 0 (length (filtered_contacts lower w))
    && length w.selected_contacts == length (filtered_contacts lower w)

abbrev pub toggle : Bool → ℕ → List ℕ → List ℕ
toggle checked id ids = if checked then ids ++ id ∷ [] else filter (λ i. not (i == id)) ids

pub data Event : Type 0 where
  type_name choose_sender type_template choose_template set_schedule search : Text → Event
  tag_inserted : Text → ℕ → ℕ → Event
  next back : Event
  contacts_opened contacts_closed groups_opened groups_closed : Event
  contact_toggled group_toggled : Bool → ℕ → Event
  select_all : Bool → Event
  contact_removed group_removed : ℕ → Event
  raw_changed : List RawContact → Event
  persistence_set group_named : Text → Event

abbrev on_step : ℕ → (Wizard → Wizard) → Wizard → Wizard
on_step n f w = if w.step == n then f w else w

abbrev when : Bool → (Wizard → Wizard) → Wizard → Wizard
when b f w = if b then f w else w

-- The "Next" button of each step.
pub press_next : Wizard → Wizard
press_next w =
    if w.step == 1
    then when (not (is_empty w.form.sender)) (go_to 2) w
    else if w.step == 2
    then when (has_recipients w) (go_to 3) w
    else if w.step == 3
    then when (not (is_empty w.form.template || ltb limit (length w.form.template))) (go_to 4) w
    else w

-- The "Back" button, from the second step on.
pub press_back : Wizard → Wizard
press_back w =
    if w.step == 2
    then go_to 1 w
    else if w.step == 3
    then go_to 2 w
    else if w.step == 4
    then go_to 3 w
    else w

module _ (lower : Text → Text) where
  unfoldable pub step : Event → Wizard → Wizard
  unfolding press_next press_back handle_select_all insert_tag
  step (type_name t) w = on_step 1 (with_form (record (w.form) { name = t })) w
  step (choose_sender t) w = on_step 1 (with_form (record (w.form) { sender = t })) w
  step (type_template t) w = on_step 3 (with_form (record (w.form) { template = t })) w
  step (choose_template t) w = on_step 3 (with_form (record (w.form) { template = t })) w
  step (tag_inserted tag start end) w =
      on_step 3
        (with_form (record (w.form) { template = insert_tag tag start end w.form.template })) w
  step (set_schedule t) w = on_step 4 (with_form (record (w.form) { scheduled_at = t })) w
  step (search t) w = when w.show_contact_modal (λ v. record v { search_query = t }) w
  step next w = press_next w
  step back w = press_back w
  step contacts_opened w = on_step 2 (λ v. record v { show_contact_modal = true }) w
  step contacts_closed w = record w { show_contact_modal = false }
  step groups_opened w = on_step 2 (λ v. record v { show_group_modal = true }) w
  step groups_closed w = record w { show_group_modal = false }
  step (contact_toggled checked id) w =
      when w.show_contact_modal (with_contacts (toggle checked id w.selected_contacts)) w
  step (group_toggled checked id) w =
      when w.show_group_modal (with_groups (toggle checked id w.selected_groups)) w
  step (select_all checked) w = when w.show_contact_modal (handle_select_all lower checked) w
  step (contact_removed id) w =
      on_step 2 (with_contacts (filter (λ i. not (i == id)) w.selected_contacts)) w
  step (group_removed id) w =
      on_step 2 (with_groups (filter (λ i. not (i == id)) w.selected_groups)) w
  step (raw_changed raw) w =
      on_step 2 (λ v. record v { draft = record (v.draft) { raw_contacts = raw } }) w
  step (persistence_set p) w =
      on_step 2 (λ v. record v { draft = record (v.draft) { contact_persistence = p } }) w
  step (group_named t) w =
      on_step 2 (λ v. record v { draft = record (v.draft) { group_name = t } }) w

  unfoldable pub run : List Event → Wizard → Wizard
  run [] w = w
  run (e ∷ es) w = run es (step e w)
