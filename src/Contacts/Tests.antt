-- ===== src/Contacts/Tests.antt =====
-- Contacts whose numbers and values make the code do something.
use nexra.Prelude.{◌≡◌, refl, none, some, [], ◌∷◌, ◌++◌, Text, codes, join, arith}
use nexra.Contacts.{Contact, Group}
use nexra.Contacts.Csv.{row}
use nexra.Contacts.Csv.Reading.{read_row, fields, read_row-row}
use nexra.Contacts.Dedupe.{seen_has, deduplicate}
use nexra.Contacts.Dedupe.Laws.{numbers, IsDistinct, deduplicate-IsDistinct}
use nexra.Prelude.{true, false, ◌+◌, count}
use nexra.Wizard.{NewContact}
use nexra.Recipients.{Picked}
use nexra.Contacts.Segments.{
  View, manual_tab, import_from, create_contact, add_to_segment, handle_manual_add,
}
use nexra.Contacts.Segments.Outcomes.{handle_manual_add-outcome}
use nexra.Contacts.Segments.Phonebook.{Answers, import_all}
use nexra.Contacts.Segments.Phonebook.Imports.{imported, all_calls, import_all-calls}

-- A name with a quote and a comma in it.
abbrev ama : Contact
ama = record {
  id = 1;
  first_name = some (codes "A\"m,a");
  last_name = none;
  phone_number = codes "0241234567";
  network = some (codes "MTN");
}

-- The same number spelled another way.
abbrev kofi : Contact
kofi = record ama { id = 2; phone_number = codes "+233241234567" }

read_row-row_example :
    read_row 4 (join (codes ",") (row ama) ++ codes "\nx") ≡ some (fields ama, codes "\nx")
read_row-row_example = read_row-row ama (codes "\nx") (ground arith, ground arith)

deduplicate-IsDistinct_example :
    IsDistinct (deduplicate (ama ∷ kofi ∷ []))
    × ((t : Text)
        → seen_has (numbers (deduplicate (ama ∷ kofi ∷ []))) t
          ≡ seen_has (numbers (ama ∷ kofi ∷ [])) t)
deduplicate-IsDistinct_example = deduplicate-IsDistinct (ama ∷ kofi ∷ [])

abbrev group : Group
group = record { id = 4; name = codes "VIP"; description = []; contact_count = 0 }

abbrev new_contact : NewContact
new_contact = record { first_name = codes "Esi"; last_name = []; phone_number = codes "024" }

abbrev view : View
view = record {
  segment = 3;
  active_tab = manual_tab;
  members = [];
  loading = false;
  new_contact = new_contact;
  draft_saved = true;
  is_saving_manual = false;
  is_importing_phonebook = false;
  has_upload_file = false;
  is_uploading = false;
  upload_error = none;
  upload_result = none;
  all_contacts = [];
  all_segments = [];
  search_existing = [];
  selected_existing = [];
  is_bulk_adding = false;
  confirm_action = import_from group;
  is_deleting = false;
  updates = 0;
  left = false;
  calls = [];
  notices = [];
}

abbrev yaw : Picked
yaw = record { name = codes "Yaw Boateng" ∷ []; tel = codes "+233 24-1" ∷ [] }

abbrev answers : Answers
answers = record { created = some 11; added = true }

import_all-calls_example :
    ((import_all ((yaw, answers) ∷ []) (view, 0)).0.calls ≡ [] ++ all_calls 3 ((yaw, answers) ∷ []))
    × ((import_all ((yaw, answers) ∷ []) (view, 0)).1 ≡ 0 + count imported ((yaw, answers) ∷ []))
import_all-calls_example = import_all-calls ((yaw, answers) ∷ []) view 0 refl

-- The contact is created and cannot be added.
handle_manual_add-outcome_example :
    let w = handle_manual_add (some 9) false view in
    (w.calls ≡ [] ++ create_contact new_contact ∷ add_to_segment 3 9 ∷ [])
    × (w.new_contact ≡ new_contact)
    × (w.updates ≡ 0 + 0)
    × (w.is_saving_manual ≡ false)
handle_manual_add-outcome_example = handle_manual_add-outcome (some 9) false view refl
