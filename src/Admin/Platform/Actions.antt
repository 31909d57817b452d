-- ===== src/Admin/Platform/Actions.antt =====
-- nexra-dashboard/src/pages/PlatformManagementPage.js: what is done to a row.
pub mod Stale
pub mod Permissions
use Prim.Native.String
use nexra.Prelude.{
  ℕ, String, Bool, true, false, not, Option, none, some, List, [], ◌∷◌, ◌++◌, Text, text_eq,
  if◌then◌else◌,
}
use nexra.Toasts.{success, error}
use nexra.Wizard.{Notice}
use nexra.SenderIds.{Answer, ok, failed, detail_or, or_null}
use nexra.Admin.Platform.{
  Tab, Row, Platform, Action, promote_user, impersonate_user, delete_row, notify, call, fetch_data,
  patch_active, patch_permissions, promote, impersonate, delete, adjust_balance, assign_plan,
}

-- `handleToggleStatus`; what `isActive` says of the row is an argument, as in the source.
pub handle_toggle_status : ℕ → Bool → Answer → Platform → Platform
handle_toggle_status id current ok p = fetch_data p.page (
    notify "Status updated successfully" success
      (call (patch_active p.active_tab id (not current)) p))
handle_toggle_status id current (failed detail) p =
    notify "Failed to update status" error (call (patch_active p.active_tab id (not current)) p)

-- `{ ...currentPerms, [permission]: !currentPerms[permission] }`
pub is_granted : List (Text × Bool) → Text → Bool
unfolding text_eq
is_granted [] permission = false
is_granted ((key, value) ∷ perms) permission =
    if text_eq key permission then value else is_granted perms permission

pub toggle_permission : List (Text × Bool) → Text → List (Text × Bool)
unfolding text_eq
toggle_permission [] permission = (permission, true) ∷ []
toggle_permission ((key, value) ∷ perms) permission =
    let rest = toggle_permission perms permission in
    if text_eq key permission then (key, not value) ∷ perms else (key, value) ∷ rest

pub handle_toggle_permission : Row → Text → Answer → Platform → Platform
unfolding toggle_permission
handle_toggle_permission u permission ok p = fetch_data p.page (
    notify "Permission delegated successfully" success
      (call (patch_permissions u.id (toggle_permission u.permissions permission)) p))
handle_toggle_permission u permission (failed detail) p =
    notify "Delegation failed" error
      (call (patch_permissions u.id (toggle_permission u.permissions permission)) p)

-- The three handlers that open the dialog.
pub handle_promote : Row → Platform → Platform
handle_promote u p = record p { confirm_action = some (promote_user u) }

pub handle_impersonate : Row → Platform → Platform
handle_impersonate u p = record p { confirm_action = some (impersonate_user u) }

pub handle_delete : ℕ → Platform → Platform
handle_delete id p = record p { confirm_action = some (delete_row p.active_tab id) }

pub close_confirm : Platform → Platform
close_confirm p = record p { confirm_action = none }

-- `onConfirm`. An impersonation opens a window with the token of the answer, which is an argument.
abbrev on_promote : Row → Answer → Platform → Platform
on_promote u ok p =
    fetch_data p.page
      (record (notify (String.◌++◌ u.name " promoted to Superadmin!") success
        (call (promote u.id) p)) { confirm_action = none })
on_promote u (failed detail) p =
    notify (detail_or detail "Promotion failed") error (call (promote u.id) p)

abbrev on_impersonate : Row → ℕ → Answer → Platform → Platform
on_impersonate u token ok p =
    record (notify (String.◌++◌ "Logged in as " u.name) success (call (impersonate u.id) p)) {
      confirm_action = none;
      opened = p.opened ++ token ∷ [];
    }
on_impersonate u token (failed detail) p =
    notify "Impersonation failed" error (call (impersonate u.id) p)

abbrev on_delete : Tab → ℕ → Answer → Platform → Platform
on_delete tab id ok p =
    fetch_data p.page (record (notify "Deleted successfully" success (call (delete tab id) p)) {
      confirm_action = none;
    })
on_delete tab id (failed detail) p =
    notify (detail_or detail "Delete failed") error (call (delete tab id) p)

abbrev on_action : Option Action → ℕ → Answer → Platform → Platform
on_action none token answer p = p
on_action (some (promote_user u)) token answer p = on_promote u answer p
on_action (some (impersonate_user u)) token answer p = on_impersonate u token answer p
on_action (some (delete_row tab id)) token answer p = on_delete tab id answer p

pub on_confirm : ℕ → Answer → Platform → Platform
on_confirm token answer p = on_action p.confirm_action token answer p

-- `handleAdjustBalance` and `handleAssignPlan`, from their start to their end.
pub handle_adjust_balance : Answer → Platform → Platform
handle_adjust_balance answer p = elim p.adjustment_org [
  | none ↦ p
  | some id ↦
      let sent =
        call (adjust_balance id p.adj_amount p.adj_desc) (record p { adj_loading = true }) in
      elim answer [
        | ok ↦
            record (fetch_data p.page
              (record (notify "Balance adjusted successfully" success sent) {
                adjustment_org = none;
                adj_amount = [];
                adj_desc = [];
              })) { adj_loading = false }
        | failed detail ↦ record (notify (detail_or detail "Adjustment failed") error sent) {
          adj_loading = false;
        }
      ]
]

pub handle_assign_plan : Answer → Platform → Platform
handle_assign_plan answer p = elim p.plan_org [
  | none ↦ p
  | some id ↦
      let sent =
        call (assign_plan id (or_null p.selected_plan)) (record p { plan_loading = true }) in
      elim answer [
        | ok ↦
            record (fetch_data p.page
              (record (notify "Plan updated successfully" success sent) { plan_org = none })) {
                plan_loading = false;
              }
        | failed detail ↦ record (notify (detail_or detail "Update failed") error sent) {
          plan_loading = false;
        }
      ]
]
