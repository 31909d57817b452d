-- ===== src/QuickSend/Tests.antt =====
-- A modal with one typed number, a picked contact, and a failing broadcast.
use nexra.Prelude.{◌+◌, ◌≡◌, refl, true, false, none, some, List, [], ◌∷◌, ◌++◌, Text, codes, map}
use nexra.Phone.{is_dialable, is_digit}
use nexra.Recipients.{Picked}
use nexra.Wizard.{ok, failed}
use nexra.QuickSend.{
  Form, QuickSend, recipients, unique, phones_of, handle_select_phone_contacts, create_campaign,
  broadcast, payload, handle_submit,
}
use nexra.QuickSend.Numbers.{handle_select_phone_contacts-recipients}
use nexra.QuickSend.Outcome.{handle_submit-outcome}

abbrev form : Form
form = record { recipient = codes " 024, 020"; sender = codes "Nexra"; message = codes "Hi" }

abbrev modal : QuickSend
modal = record {
  loading = false;
  form = form;
  is_contact_picker_supported = true;
  is_open = true;
  sent_count = 0;
  calls = [];
  notices = [];
}

abbrev picked : List Picked
picked =
    record { name = []; tel = codes "02 4" ∷ [] }
    ∷ record { name = []; tel = codes "+1-2" ∷ [] }
    ∷ []

handle_select_phone_contacts-recipients_example :
    recipients (handle_select_phone_contacts (some picked) modal).form.recipient
    ≡ unique (recipients form.recipient ++ phones_of picked)
unfolding phones_of is_dialable is_digit
handle_select_phone_contacts-recipients_example =
    handle_select_phone_contacts-recipients picked modal refl refl

abbrev title : Text
title = codes "Quick Send - today"

handle_submit-outcome_example :
    let w = handle_submit title (ok 8) (failed none) modal in
    (w.calls ≡ [] ++ create_campaign (payload title form) ∷ broadcast 8 ∷ [])
    × (map (λ c. c.phone) (payload title form).raw_contacts ≡ recipients form.recipient)
    × (w.is_open ≡ true)
    × (w.form ≡ form)
    × (w.sent_count ≡ 0 + 0)
    × (w.loading ≡ false)
handle_submit-outcome_example = handle_submit-outcome title (ok 8) (failed none) modal refl
