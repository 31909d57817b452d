-- ===== src/Admin/Access.antt =====
-- Who gets to see the pages of the admin console: its router with the state of the sign-in.
use nexra.Prelude.{
  ◌≡◌, refl, true, false, Option, none, some, List, Text, Bool, Bool-cases, inl, inr, text_eq,
  codes,
}
use nexra.ApiClient.{Storage}
use nexra.Auth.{User, Event, begin, mount_admin, is_platform, run_admin}
use nexra.Auth.Roles.{OnlyPlatform, run_admin-mount_admin-OnlyPlatform}
use nexra.Admin.Shell.{
  AdminScreen, nothing, admin_login, admin_register, console, admin_app, current_page,
}

-- A page of the console is for a superadmin or a staff member; the other screens are for all.
pub is_allowed : Option User → AdminScreen → Bool
is_allowed m nothing = true
is_allowed m admin_login = true
is_allowed m admin_register = true
is_allowed none (console p) = false
is_allowed (some u) (console p) = is_platform u.role

admin_app-allowed :
    (m : Option User) (loading : Bool) (hash : Text)
    → OnlyPlatform m
    → is_allowed m (admin_app loading m hash) ≡ true
unfolding admin_app is_allowed
admin_app-allowed none true hash v = refl
admin_app-allowed none false hash v =
    elim (Bool-cases (text_eq (current_page hash) (codes "register"))) [
      | inl e ↦ rw e refl
      | inr e ↦ rw e refl
    ]
admin_app-allowed (some u) true hash v = refl
admin_app-allowed (some u) false hash v = v

-- From the first rendering of the admin console on, whatever is answered in whatever order and
-- whatever the address is, a page of the console shows only to a superadmin or a staff member.
pub run_admin-admin_app-allowed :
    (es : List Event) (st : Storage) (hash : Text)
    → let a = run_admin es (mount_admin (begin st)) in
      is_allowed a.user (admin_app a.loading a.user hash) ≡ true
run_admin-admin_app-allowed es st hash =
    let a = run_admin es (mount_admin (begin st)) in
    admin_app-allowed a.user a.loading hash (run_admin-mount_admin-OnlyPlatform es st)
