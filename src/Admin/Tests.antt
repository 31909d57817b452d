-- ===== src/Admin/Tests.antt =====
-- The rows of the users, arriving after the click on the other tab.
use nexra.Prelude.{
  ◌≡◌, refl, true, false, none, some, [], ◌∷◌, ◌++◌, codes, text_eq, not, if◌then◌else◌,
}
use nexra.SenderIds.{ok}
use nexra.Admin.Platform.{
  users, orgs, Row, Platform, paginated, fetched, set_active_tab, list_of, delete, page_size,
}
use nexra.Admin.Platform.Actions.{handle_delete, on_confirm, is_granted, toggle_permission}
use nexra.Admin.Platform.Actions.Permissions.{is_granted-toggle_permission}
use nexra.Admin.Platform.Actions.Stale.{then_list, fetched-set_active_tab-delete}

abbrev ama : Row
ama = record { id = 5; name = "Ama"; is_active = true; permissions = []; plan_slug = none }

abbrev page : Platform
page = record {
  active_tab = users;
  rows = [];
  total = 0;
  page = 0;
  loading = true;
  confirm_action = none;
  adjustment_org = none;
  adj_amount = [];
  adj_desc = [];
  adj_loading = false;
  plan_org = none;
  selected_plan = [];
  plan_loading = false;
  opened = [];
  calls = [];
  notices = [];
}

fetched-set_active_tab-delete_example :
    let late = fetched (some (paginated (ama ∷ []) 1)) (set_active_tab orgs page) in
    let after = on_confirm 0 ok (handle_delete 5 late) in
    (late.active_tab ≡ orgs)
    × (late.rows ≡ ama ∷ [])
    × (late.loading ≡ false)
    × (after.calls ≡ [] ++ list_of orgs 0 page_size ∷ delete orgs 5 ∷ then_list ok)
fetched-set_active_tab-delete_example = fetched-set_active_tab-delete (ama ∷ []) 1 5 0 ok page refl

-- A permission that is granted is taken away, and another one stays.
is_granted-toggle_permission_example :
    is_granted
      (toggle_permission ((codes "sms", true) ∷ (codes "api", true) ∷ []) (codes "sms"))
      (codes "api")
    ≡ (if text_eq (codes "sms") (codes "api")
        then not (is_granted ((codes "sms", true) ∷ (codes "api", true) ∷ []) (codes "sms"))
        else is_granted ((codes "sms", true) ∷ (codes "api", true) ∷ []) (codes "api"))
is_granted-toggle_permission_example =
    is_granted-toggle_permission ((codes "sms", true) ∷ (codes "api", true) ∷ []) (codes "sms")
      (codes "api")
