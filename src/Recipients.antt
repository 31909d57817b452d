-- ===== src/Recipients.antt =====
-- nexra-dashboard/src/components/RecipientSelector.js: step 2 of the wizard. The list of contacts
-- from the phone and its persistence are the wizard's state, and the form of the manual entry is
-- the component's own.
pub mod Numbers
mod Tests
use nexra.Prelude.{
  ℕ, ◌+◌, Bool, true, false, not, Option, none, some, List, [], ◌∷◌, ◌++◌, Text, codes,
  if◌then◌else◌, is_empty, map, filter, take, drop, trim,
}
use nexra.Phone.{normalize_phone_number, ghana}
use nexra.Wizard.{RawContact, NewContact, blank_contact}

pub record Selector : Type 0 where
  pub raw_contacts : List RawContact
  pub contact_persistence : Text
  pub manual_mode : Bool
  pub new_manual_contact : NewContact
  pub is_contact_picker_supported : Bool

-- A contact as the browser's picker returns it.
pub record Picked : Type 0 where
  pub name : List Text
  pub tel : List Text

abbrev pub first_or_empty : List Text → Text
first_or_empty [] = []
first_or_empty (t ∷ ts) = t

pub process : Picked → RawContact
process c = record {
  name = first_or_empty c.name;
  phone = normalize_phone_number (first_or_empty c.tel) ghana;
}

abbrev has_phone : RawContact → Bool
has_phone c = not (is_empty c.phone)

-- The default is temporary, so that nothing is saved silently.
abbrev default_persistence : Text → Text
default_persistence [] = codes "temporary"
default_persistence (c ∷ s) = c ∷ s

-- `none` is a picker that failed or was cancelled.
pub handle_select_phone_contacts : Option (List Picked) → Selector → Selector
unfolding process
handle_select_phone_contacts none s = s
handle_select_phone_contacts (some []) s = s
handle_select_phone_contacts (some (p ∷ ps)) s =
    if s.is_contact_picker_supported
    then record s {
      raw_contacts = s.raw_contacts ++ filter has_phone (map process (p ∷ ps));
      contact_persistence = default_persistence s.contact_persistence;
    }
    else s

pub manual_contact : NewContact → RawContact
manual_contact n = record {
  name = trim (n.first_name ++ (b' ' ∷ n.last_name));
  phone = normalize_phone_number n.phone_number ghana;
}

pub handle_manual_add : Selector → Selector
unfolding manual_contact
handle_manual_add s = if is_empty s.new_manual_contact.phone_number then s else record s {
  raw_contacts = s.raw_contacts ++ manual_contact s.new_manual_contact ∷ [];
  contact_persistence = default_persistence s.contact_persistence;
  new_manual_contact = blank_contact;
}

-- `splice(index, 1)`
pub remove_raw_contact : ℕ → Selector → Selector
remove_raw_contact index s = record s {
  raw_contacts = take index s.raw_contacts ++ drop (index + 1) s.raw_contacts;
}

pub toggle_manual : Selector → Selector
toggle_manual s = record s { manual_mode = not s.manual_mode }
