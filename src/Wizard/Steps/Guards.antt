-- ===== src/Wizard/Steps/Guards.antt =====
-- The buttons keep the wizard in order.
use nexra.Prelude.{
  ◌≤◌, ◌≡◌, true, not, ◌&&◌, ◌||◌, List, [], ◌∷◌, Text, leb, ltb, is_empty, length, arith,
}
use nexra.Wizard.{Wizard}
use nexra.Wizard.Steps.{
  limit, Event, type_name, choose_sender, type_template, choose_template, set_schedule, search,
  tag_inserted, next, back, contacts_opened, contacts_closed, groups_opened, groups_closed,
  contact_toggled, group_toggled, select_all, contact_removed, group_removed, raw_changed,
  persistence_set, group_named, step, run, press_next, press_back, handle_select_all,
}

-- The step is one of four; from the second on a sender is chosen; the last has a template that
-- is not empty and not too long.
pub record IsReady (w : Wizard) : Type 0 where
  pub first : 1 ≤ w.step
  pub last : w.step ≤ 4
  pub has_sender : (leb w.step 1 || not (is_empty w.form.sender)) ≡ true
  pub has_template :
      (ltb w.step 4 || (not (is_empty w.form.template) && leb (length w.form.template) limit))
      ≡ true

module _ (lower : Text → Text) where
  step-IsReady : (e : Event) (w : Wizard) → IsReady w → IsReady (step lower e w)
  unfolding step press_next press_back handle_select_all
  step-IsReady (type_name t) w v = ground arith
  step-IsReady (choose_sender t) w v = ground arith
  step-IsReady (type_template t) w v = ground arith
  step-IsReady (choose_template t) w v = ground arith
  step-IsReady (tag_inserted tag start end) w v = ground arith
  step-IsReady (set_schedule t) w v = ground arith
  step-IsReady (search t) w v = ground arith
  step-IsReady next w v = ground arith
  step-IsReady back w v = ground arith
  step-IsReady contacts_opened w v = ground arith
  step-IsReady contacts_closed w v = ground arith
  step-IsReady groups_opened w v = ground arith
  step-IsReady groups_closed w v = ground arith
  step-IsReady (contact_toggled checked id) w v = ground arith
  step-IsReady (group_toggled checked id) w v = ground arith
  step-IsReady (select_all checked) w v = ground arith
  step-IsReady (contact_removed id) w v = ground arith
  step-IsReady (group_removed id) w v = ground arith
  step-IsReady (raw_changed raw) w v = ground arith
  step-IsReady (persistence_set p) w v = ground arith
  step-IsReady (group_named t) w v = ground arith

  -- Whatever the user does, a wizard that is in order stays so: its step is one of the four, a
  -- sender is chosen from the second step on, and the template of the last step is not empty and
  -- has at most 612 characters.
  pub run-IsReady : (es : List Event) (w : Wizard) → IsReady w → IsReady (run lower es w)
  unfolding run
  run-IsReady [] w v = v
  run-IsReady (e ∷ es) w v = run-IsReady es (step lower e w) (step-IsReady e w v)
