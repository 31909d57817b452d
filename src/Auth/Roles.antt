-- ===== src/Auth/Roles.antt =====
-- Who can be signed in to the admin console.
use nexra.Prelude.{◌≡◌, true, Option, none, some, List, [], ◌∷◌, arith}
use nexra.ApiClient.{Storage}
use nexra.Auth.{
  User, Auth, begin, fetch_user, check_token, mount_admin, admin_me, logout_admin, is_platform,
  Event, me_answered, login_answered, register_answered, logged_out, api, step_admin, run_admin,
}

abbrev pub OnlyPlatform : Option User → Type 0
OnlyPlatform none = Unit
OnlyPlatform (some u) = is_platform u.role ≡ true

admin_me-OnlyPlatform :
    (u : Option User) (a : Auth) → OnlyPlatform a.user → OnlyPlatform (admin_me u a).user
unfolding admin_me logout_admin
admin_me-OnlyPlatform none a h = h
admin_me-OnlyPlatform (some u) a h = ground arith

step_admin-OnlyPlatform :
    (e : Event) (a : Auth) → OnlyPlatform a.user → OnlyPlatform (step_admin e a).user
unfolding step_admin
step_admin-OnlyPlatform (me_answered u) a h = ground (arith, admin_me-OnlyPlatform u)
step_admin-OnlyPlatform (login_answered none) a h = h
step_admin-OnlyPlatform (login_answered (some t)) a h = h
step_admin-OnlyPlatform (register_answered none) a h = h
step_admin-OnlyPlatform (register_answered (some t)) a h = h
step_admin-OnlyPlatform logged_out a h = tt
step_admin-OnlyPlatform (api e) a h = h

run_admin-OnlyPlatform :
    (es : List Event) (a : Auth) → OnlyPlatform a.user → OnlyPlatform (run_admin es a).user
unfolding run_admin
run_admin-OnlyPlatform [] a h = h
run_admin-OnlyPlatform (e ∷ es) a h =
    run_admin-OnlyPlatform es (step_admin e a) (step_admin-OnlyPlatform e a h)

-- From the first rendering of the admin console on, whatever is answered in whatever order, a
-- signed-in user is a superadmin or a staff member.
pub run_admin-mount_admin-OnlyPlatform :
    (es : List Event) (st : Storage) → OnlyPlatform (run_admin es (mount_admin (begin st))).user
unfolding mount_admin check_token fetch_user
run_admin-mount_admin-OnlyPlatform es st =
    run_admin-OnlyPlatform es (mount_admin (begin st)) (ground arith)
