-- ===== src/Auth/Tests.antt =====
-- Signing in to the two consoles, and what the admin console shows then.
use nexra.Prelude.{◌≡◌, refl, none, true, some, List, [], ◌∷◌, Text, codes}
use nexra.ApiClient.{Storage, Client}
use nexra.ApiClient
use nexra.ApiClient.Absent.{NoRefresh}
use nexra.Auth.{
  User, member, staff, begin, mount_dashboard, mount_admin, Event, me_answered, login_answered, api,
  run_admin, run_dashboard, admin_me, signed_in, step_admin,
}
use nexra.Admin.Shell.{console, overview, admin_app}
use nexra.Admin.Access.{is_allowed, run_admin-admin_app-allowed}
use nexra.Auth.Session.{run-NoRefresh}

abbrev empty_storage : Storage
empty_storage = record { access_token = none; refresh_token = none }

abbrev customer : User
customer = record { id = 1; role = member }

abbrev morning : List Event
morning =
    login_answered (some 7)
    ∷ me_answered (some customer)
    ∷ api ApiClient.issued
    ∷ api (ApiClient.failed 0 (some 401))
    ∷ []

-- A customer who signs in to the admin console is signed out again.
customer_refused : (run_admin morning (mount_admin (begin empty_storage))).user ≡ none
unfolding run_admin mount_admin step_admin signed_in admin_me
customer_refused = refl

run-NoRefresh_example :
    NoRefresh (run_dashboard morning (mount_dashboard none (begin empty_storage))).client
    × NoRefresh (run_admin morning (mount_admin (begin empty_storage))).client
run-NoRefresh_example = run-NoRefresh morning none empty_storage refl

-- A member of the staff who signs in.
abbrev staff_morning : List Event
staff_morning = login_answered (some 7) ∷ me_answered (some (record { id = 2; role = staff })) ∷ []

abbrev overview_hash : Text
overview_hash = codes "#/overview"

overview_shown :
    let a = run_admin staff_morning (mount_admin (begin empty_storage)) in
    admin_app a.loading a.user overview_hash ≡ console overview
unfolding run_admin mount_admin step_admin signed_in admin_me admin_app
overview_shown = refl

run_admin-admin_app-allowed_example :
    let a = run_admin staff_morning (mount_admin (begin empty_storage)) in
    is_allowed a.user (admin_app a.loading a.user overview_hash) ≡ true
run_admin-admin_app-allowed_example =
    run_admin-admin_app-allowed staff_morning empty_storage overview_hash
