-- ===== src/Wizard/Session/Reload.antt =====
-- What a reload of the page brings back.
use nexra.Prelude.{ℕ, ◌≡◌, ◌≢◌, Bool, true, none, [], arith}
use nexra.Wizard.{Wizard, ok, blank_draft}
use nexra.Wizard.Session.{save_draft, restore_draft, open_wizard}
use nexra.Wizard.Steps.Guards.{IsReady}
use nexra.Wizard.Submit.{handle_submit}
use nexra.Wizard.Submit.Outcome.{handle_submit_ok}

-- A reload of a wizard in order that makes a new campaign and whose persistence is not the empty
-- text brings the saved draft back as it was, and the wizard opens in order.
pub open_wizard-save_draft :
    (w : Wizard)
    → w.edit_id ≡ none
    → w.contact_persistence ≢ []
    → IsReady w
    → (open_wizard none (save_draft w).saved).draft ≡ w.draft
unfolding open_wizard save_draft restore_draft
open_wizard-save_draft w e p v = ground (arith, v.first)

-- After a submission that succeeds and leaves the page, in the edit mode too, the wizard opens
-- blank: no draft is left.
pub open_wizard-handle_submit :
    (should_broadcast : Bool) (id : ℕ) (w : Wizard)
    → (open_wizard none (handle_submit should_broadcast true (ok id) (ok tt) w).0.saved).draft
      ≡ blank_draft
unfolding open_wizard restore_draft
open_wizard-handle_submit should_broadcast id w =
    ground (arith, handle_submit_ok should_broadcast true id w)
