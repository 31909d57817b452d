-- ===== src/Modals/BugReport.antt =====
-- nexra-dashboard/src/components/ReportBugModal.js: the form that reports a bug. The component stays
-- while it is closed, and so does the timer of a success.
use nexra.Prelude.{
  ℕ, zero, suc, ◌≡◌, refl, String, Bool, true, false, ◌||◌, List, [], ◌∷◌, ◌++◌, Text, trim,
  is_empty, if◌then◌else◌,
}
use nexra.SenderIds.{Answer, ok, failed, detail_or}

pub data Status : Type 0 where
  idle loading success error : Status

pub record BugForm : Type 0 where
  pub is_open : Bool
  pub subject : Text
  pub description : Text
  pub status : Status
  pub error_msg : String
  pub timers : ℕ
  pub posted : List (Text × Text)

pub open_modal : BugForm → BugForm
open_modal p = record p { is_open = true }

pub set_subject : Text → BugForm → BugForm
set_subject t p = record p { subject = t }

pub set_description : Text → BugForm → BugForm
set_description t p = record p { description = t }

pub handle_close : BugForm → BugForm
handle_close p = record p {
  is_open = false;
  subject = [];
  description = [];
  status = idle;
  error_msg = "";
}

-- `handleSubmit` from its start to its end; a success sets the timer of two seconds.
pub handle_submit : Answer → BugForm → BugForm
unfolding trim
handle_submit answer p =
    if is_empty (trim p.subject) || is_empty (trim p.description)
    then p
    else let asked = record p { posted = p.posted ++ (trim p.subject, trim p.description) ∷ [] } in
      elim answer [
        | ok ↦ record asked { status = success; timers = suc p.timers }
        | failed detail ↦ record asked {
          status = error;
          error_msg = detail_or detail "Failed to submit bug report. Please try again.";
        }
      ]

-- A timer that is due.
pub timer_due : BugForm → BugForm
unfolding handle_close
timer_due p = elim p.timers [ zero ↦ p | suc n ↦ handle_close (record p { timers = n }) ]

-- While a timer of an earlier success runs, a report that is closed, opened again and typed anew
-- is there as it was typed, and the timer closes and empties it.
pub timer_due-set_description :
    (subject description : Text) (n : ℕ) (p : BugForm)
    → p.timers ≡ suc n
    → let again = set_description description (set_subject subject (open_modal (handle_close p))) in
      (again.is_open ≡ true)
      × (again.subject ≡ subject)
      × (again.description ≡ description)
      × (timer_due again ≡ record (handle_close p) { timers = n })
unfolding timer_due set_description set_subject open_modal handle_close
timer_due-set_description subject description n p h = rw (h, timer_due) (refl, refl, refl, refl)
