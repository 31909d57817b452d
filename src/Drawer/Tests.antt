-- ===== src/Drawer/Tests.antt =====
-- A drawer with a failed and a delivered row, on the second page of three.
use nexra.Prelude.{◌≡◌, refl, false, none, some, [], ◌∷◌, Text, codes, includes}
use nexra.Drawer.{Recipient, Drawer, failed_ids}
use nexra.Drawer.{toggle_select}
use nexra.Drawer.Marks.{
  row, all_failed, clicks, marks, clicks-marks, selection, toggle_select-selection,
}

abbrev ama : Recipient
ama = record { id = 1; phone = codes "+2331"; name = some (codes "Ama"); status = codes "failed" }

abbrev kofi : Recipient
kofi = record { id = 2; phone = codes "+2332"; name = none; status = codes "delivered" }

abbrev drawer : Drawer
drawer = record {
  campaign = some 7;
  recipients = ama ∷ kofi ∷ [];
  total = 120;
  page = 1;
  loading = false;
  search = [];
  selected = 2 ∷ [];
  retrying_ids = [];
  retrying_all = false;
  retrying_selected = false;
  success_ids = [];
  requests = [];
}

abbrev same : Text → Text
same t = t

clicks-marks_example :
    includes (clicks same (row 1 ∷ all_failed ∷ row 2 ∷ []) drawer).selected
    ≡ marks (failed_ids same drawer) (row 1 ∷ all_failed ∷ row 2 ∷ []) (includes drawer.selected)
clicks-marks_example = clicks-marks same (row 1 ∷ all_failed ∷ row 2 ∷ []) drawer

toggle_select-selection_example :
    (selection (toggle_select 1 (toggle_select 2 drawer))
      ≡ selection (toggle_select 2 (toggle_select 1 drawer)))
    × (selection (toggle_select 1 (toggle_select 1 drawer)) ≡ selection drawer)
toggle_select-selection_example = toggle_select-selection 1 2 drawer

-- The lists themselves differ in their order.
toggle_select-order :
    (toggle_select 2 (toggle_select 2 (toggle_select 1 drawer))).selected ≡ 1 ∷ 2 ∷ []
unfolding toggle_select
toggle_select-order = refl
