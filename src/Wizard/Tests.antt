-- ===== src/Wizard/Tests.antt =====
-- The wizard at a concrete draft.
use nexra.Prelude.{◌+◌, ◌≡◌, refl, true, false, none, some, List, [], ◌∷◌, ◌++◌, Text, codes, arith}
use nexra.Wizard.{no_items, Draft, Wizard, RawContact, ok, blank_draft}
use nexra.Wizard.Steps
use nexra.Wizard.Steps.{Event, next, back, type_template, raw_changed, run}
use nexra.Wizard.Steps.Guards.{IsReady, run-IsReady}
use nexra.Wizard.Submit.{handle_submit}
use nexra.Wizard.Submit.Outcome.{
  requests, handle_submit_ok, creates, cancelled, creates_after_cancel,
}
use nexra.Wizard.Session.{open_wizard, save_draft}
use nexra.Wizard.Session.Reload.{open_wizard-save_draft}

abbrev ama : RawContact
ama = record { name = codes "Ama Serwaa Mensah"; phone = codes "+233241234567" }

abbrev second_step : Draft
second_step = record blank_draft {
  step = 2;
  form = record { name = codes "Sale"; sender = codes "NEXRA"; template = []; scheduled_at = [] };
  raw_contacts = ama ∷ [];
}

abbrev wizard : Wizard
wizard = record {
  draft = second_step;
  contacts = [];
  groups = [];
  loading = false;
  search_query = [];
  new_contact = record { first_name = []; last_name = []; phone_number = [] };
  is_saving_contact = false;
  show_contact_modal = false;
  show_group_modal = false;
  checkout_campaign = none;
  edit_id = none;
  saved = no_items;
  left = false;
  calls = [];
  notices = [];
}

abbrev writing : List Event
writing = next ∷ next ∷ type_template (codes "Hello") ∷ next ∷ []

abbrev same : Text → Text
same t = t

writing-run : (run same writing wizard).step ≡ 4
unfolding run Steps.step
writing-run = refl

wizard-IsReady : IsReady wizard
wizard-IsReady = record {
  first = omega arith;
  last = omega arith;
  has_sender = refl;
  has_template = refl;
}

run-IsReady_example : IsReady (run same writing wizard)
run-IsReady_example = run-IsReady same writing wizard wizard-IsReady

handle_submit_ok_example :
    let r = handle_submit true true (ok 9) (ok tt) wizard in
    (r.0.calls ≡ [] ++ requests wizard true 9)
    × (r.1 ≡ some 9)
    × (r.0.loading ≡ false)
    × (r.0.saved ≡ no_items)
    × (r.0.left ≡ true)
    × (r.0.draft ≡ second_step)
handle_submit_ok_example = handle_submit_ok true true 9 wizard

creates_after_cancel_example : creates (cancelled (5 ∷ 6 ∷ []) wizard) ≡ creates wizard + 2
creates_after_cancel_example = creates_after_cancel (5 ∷ 6 ∷ []) wizard refl

-- The second step after a reload.
reloaded : (open_wizard none (save_draft wizard).saved).draft ≡ second_step
reloaded = open_wizard-save_draft wizard refl (λ e. ground (arith, e)) wizard-IsReady
