-- ===== src/Recipients/Tests.antt =====
-- The selector with one contact from the phone.
use nexra.Prelude.{refl, true, some, List, [], ◌∷◌, codes, All}
use nexra.Phone.Form.{ghana-Dialable}
use nexra.Wizard.{RawContact, blank_contact}
use nexra.Recipients.{Selector, Picked, handle_select_phone_contacts}
use nexra.Recipients.Numbers.{HasNumber, handle_select_phone_contacts-HasNumber}

abbrev kofi : RawContact
kofi = record { name = codes "Kofi"; phone = codes "+233" }

abbrev selector : Selector
selector = record {
  raw_contacts = kofi ∷ [];
  contact_persistence = codes "temporary";
  manual_mode = true;
  new_manual_contact = record blank_contact { phone_number = codes "none" };
  is_contact_picker_supported = true;
}

abbrev picked : List Picked
picked =
    record { name = codes "Ama" ∷ []; tel = codes "024 1" ∷ [] }
    ∷ record { name = []; tel = [] }
    ∷ []

handle_select_phone_contacts-HasNumber_example :
    All HasNumber (handle_select_phone_contacts (some picked) selector).raw_contacts
handle_select_phone_contacts-HasNumber_example =
    handle_select_phone_contacts-HasNumber (some picked) selector ((refl, ghana-Dialable), tt)
