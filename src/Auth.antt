-- ===== src/Auth.antt =====
-- nexra-dashboard/src/contexts/AuthContext.js (the dashboard) and src/context/AuthContext.js (the
-- admin console): who is signed in. The provider shares the storage with the API client, whose
-- events run between its own.
pub mod Roles
pub mod Session
mod Tests
use nexra.Prelude.{
  ℕ, ◌+◌, ◌-◌, ◌==◌, ◌≡◌, String, Bool, true, false, ◌||◌, Option, none, some, List, [], ◌∷◌,
  if◌then◌else◌, is_some,
}
use nexra.ApiClient.{Storage, Client, start}
use nexra.ApiClient

pub data Role : Type 0 where
  superadmin staff member : Role

pub record User : Type 0 where
  pub id : ℕ
  pub role : Role

pub record Auth : Type 0 where
  pub client : Client
  pub user : Option User
  pub loading : Bool
  pub fetches : ℕ

-- `fetches` counts the requests for `/auth/me` that are under way.
abbrev pub begin : Storage → Auth
begin st = record { client = start st; user = none; loading = true; fetches = 0 }

abbrev pub put_access : Option ℕ → Auth → Auth
put_access token a = record a {
  client = record (a.client) { storage = record (a.client.storage) { access_token = token } };
}

pub fetch_user : Auth → Auth
fetch_user a = record a { fetches = a.fetches + 1 }

-- The effect of the first rendering: with a token the user is fetched.
pub check_token : Auth → Auth
unfolding fetch_user
check_token a =
    if is_some a.client.storage.access_token then fetch_user a else record a { loading = false }

-- The dashboard takes an impersonation token from the address first.
pub mount_dashboard : Option ℕ → Auth → Auth
unfolding check_token
mount_dashboard none a = check_token a
mount_dashboard (some token) a = check_token (put_access (some token) a)

pub mount_admin : Auth → Auth
unfolding check_token
mount_admin a = check_token a

-- The end of `fetchUser`: the answer is the user, or a failure.
pub dashboard_me : Option User → Auth → Auth
dashboard_me none a = record (put_access none a) { loading = false }
dashboard_me (some u) a = record a { user = some u; loading = false }

pub logout_dashboard : Auth → Auth
logout_dashboard a = record (put_access none a) { user = none }

-- The admin console's `logout` drops both tokens and goes to its login page.
pub logout_admin : Auth → Auth
logout_admin a = record a {
  client = record (a.client) {
    storage = record { access_token = none; refresh_token = none };
    redirects = a.client.redirects + 1;
  };
  user = none;
}

abbrev pub is_platform : Role → Bool
is_platform superadmin = true
is_platform staff = true
is_platform member = false

pub admin_me : Option User → Auth → Auth
unfolding logout_admin
admin_me none a = record (put_access none a) { loading = false }
admin_me (some u) a =
    let known = record a { user = some u } in
    record (if is_platform u.role then known else logout_admin known) { loading = false }

-- `login` and `register` after their request: the answer is the access token, or a failure, which
-- is thrown. Of the answer's tokens only the access token is stored.
pub signed_in : Option ℕ → Auth → Auth
unfolding fetch_user
signed_in none a = a
signed_in (some token) a = fetch_user (put_access (some token) a)

pub data Event : Type 0 where
  me_answered : Option User → Event
  login_answered register_answered : Option ℕ → Event
  logged_out : Event
  api : ApiClient.Event → Event

-- An answer to `/auth/me` needs a request under way.
abbrev answer_me : (Option User → Auth → Auth) → Option User → Auth → Auth
answer_me me u a = if a.fetches == 0 then a else me u (record a { fetches = a.fetches - 1 })

abbrev through_client : ApiClient.Event → Auth → Auth
through_client e a = record a { client = ApiClient.step e a.client }

pub step_dashboard : Event → Auth → Auth
unfolding dashboard_me signed_in logout_dashboard
step_dashboard (me_answered u) a = answer_me dashboard_me u a
step_dashboard (login_answered token) a = signed_in token a
step_dashboard (register_answered token) a = signed_in token a
step_dashboard logged_out a = logout_dashboard a
step_dashboard (api e) a = through_client e a

pub step_admin : Event → Auth → Auth
unfolding admin_me signed_in logout_admin
step_admin (me_answered u) a = answer_me admin_me u a
step_admin (login_answered token) a = signed_in token a
step_admin (register_answered token) a = signed_in token a
step_admin logged_out a = logout_admin a
step_admin (api e) a = through_client e a

pub run_dashboard : List Event → Auth → Auth
run_dashboard [] a = a
run_dashboard (e ∷ es) a = run_dashboard es (step_dashboard e a)

pub run_admin : List Event → Auth → Auth
run_admin [] a = a
run_admin (e ∷ es) a = run_admin es (step_admin e a)
