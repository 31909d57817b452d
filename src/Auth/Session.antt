-- ===== src/Auth/Session.antt =====
-- What signing in stores, and what follows for the silent refresh.
use nexra.Prelude.{
  ℕ, ◌≡◌, ◌==◌, refl, Option, none, some, List, [], ◌∷◌, is_some, inl, inr, Bool-cases,
}
use nexra.ApiClient.{Storage}
use nexra.ApiClient.Absent.{NoRefresh, step-NoRefresh}
use nexra.Auth.{
  User, Auth, begin, put_access, fetch_user, check_token, mount_dashboard, mount_admin,
  dashboard_me, admin_me, logout_dashboard, logout_admin, is_platform, signed_in, Event, answer_me,
  me_answered, login_answered, register_answered, logged_out, api, step_dashboard, run_dashboard,
  step_admin, run_admin,
}

abbrev Quiet : Auth → Type 0
Quiet a = NoRefresh a.client

put_access-Quiet : (token : Option ℕ) (a : Auth) → Quiet a → Quiet (put_access token a)
put_access-Quiet token a v = record { absent = v.absent; idle = v.idle; plain = v.plain }

signed_in-Quiet : (token : Option ℕ) (a : Auth) → Quiet a → Quiet (signed_in token a)
unfolding signed_in fetch_user
signed_in-Quiet none a v = v
signed_in-Quiet (some token) a v = put_access-Quiet (some token) a v

logout_admin-Quiet : (a : Auth) → Quiet a → Quiet (logout_admin a)
unfolding logout_admin
logout_admin-Quiet a v = record { absent = refl; idle = v.idle; plain = v.plain }

dashboard_me-Quiet : (u : Option User) (a : Auth) → Quiet a → Quiet (dashboard_me u a)
unfolding dashboard_me
dashboard_me-Quiet none a v = put_access-Quiet none a v
dashboard_me-Quiet (some u) a v = v

admin_me-Quiet : (u : Option User) (a : Auth) → Quiet a → Quiet (admin_me u a)
unfolding admin_me
admin_me-Quiet none a v = put_access-Quiet none a v
admin_me-Quiet (some u) a v = elim (Bool-cases (is_platform u.role)) [
  | inl ok ↦ rw ok v
  | inr other ↦ rw other (logout_admin-Quiet (record a { user = some u }) v)
]

answer_me-Quiet :
    (me : Option User → Auth → Auth) (u : Option User) (a : Auth)
    → ((b : Auth) → Quiet b → Quiet (me u b))
    → Quiet a
    → Quiet (answer_me me u a)
answer_me-Quiet me u a keep v = elim (Bool-cases (a.fetches == 0)) [
  | inl idle ↦ rw (idle, answer_me) v
  | inr busy ↦ rw (busy, answer_me) (keep _ v)
]

step_dashboard-Quiet : (e : Event) (a : Auth) → Quiet a → Quiet (step_dashboard e a)
unfolding step_dashboard logout_dashboard
step_dashboard-Quiet (me_answered u) a v = answer_me-Quiet dashboard_me u a (dashboard_me-Quiet u) v
step_dashboard-Quiet (login_answered token) a v = signed_in-Quiet token a v
step_dashboard-Quiet (register_answered token) a v = signed_in-Quiet token a v
step_dashboard-Quiet logged_out a v = put_access-Quiet none a v
step_dashboard-Quiet (api e) a v = step-NoRefresh e a.client v

step_admin-Quiet : (e : Event) (a : Auth) → Quiet a → Quiet (step_admin e a)
unfolding step_admin
step_admin-Quiet (me_answered u) a v = answer_me-Quiet admin_me u a (admin_me-Quiet u) v
step_admin-Quiet (login_answered token) a v = signed_in-Quiet token a v
step_admin-Quiet (register_answered token) a v = signed_in-Quiet token a v
step_admin-Quiet logged_out a v = logout_admin-Quiet a v
step_admin-Quiet (api e) a v = step-NoRefresh e a.client v

run_dashboard-Quiet : (es : List Event) (a : Auth) → Quiet a → Quiet (run_dashboard es a)
unfolding run_dashboard
run_dashboard-Quiet [] a v = v
run_dashboard-Quiet (e ∷ es) a v = run_dashboard-Quiet es _ (step_dashboard-Quiet e a v)

run_admin-Quiet : (es : List Event) (a : Auth) → Quiet a → Quiet (run_admin es a)
unfolding run_admin
run_admin-Quiet [] a v = v
run_admin-Quiet (e ∷ es) a v = run_admin-Quiet es _ (step_admin-Quiet e a v)

check_token-Quiet : (a : Auth) → Quiet a → Quiet (check_token a)
unfolding check_token fetch_user
check_token-Quiet a v = elim (Bool-cases (is_some a.client.storage.access_token)) [
  | inl token ↦ rw token v
  | inr guest ↦ rw guest v
]

mount_dashboard-Quiet : (imp : Option ℕ) (a : Auth) → Quiet a → Quiet (mount_dashboard imp a)
unfolding mount_dashboard
mount_dashboard-Quiet none a v = check_token-Quiet a v
mount_dashboard-Quiet (some t) a v =
    check_token-Quiet (put_access (some t) a) (put_access-Quiet (some t) a v)

mount_admin-Quiet : (a : Auth) → Quiet a → Quiet (mount_admin a)
unfolding mount_admin
mount_admin-Quiet a v = check_token-Quiet a v

-- If the storage holds no refresh token when the page loads, no sequence of logins, registrations,
-- logouts, answers and requests, in the dashboard or in the admin console, brings one: no refresh
-- is under way afterwards and no request waits for one or was sent again.
pub run-NoRefresh :
    (es : List Event) (imp : Option ℕ) (st : Storage)
    → st.refresh_token ≡ none
    → NoRefresh (run_dashboard es (mount_dashboard imp (begin st))).client
      × NoRefresh (run_admin es (mount_admin (begin st))).client
run-NoRefresh es imp st h =
    let fresh : Quiet (begin st) = record { absent = h; idle = refl; plain = tt } in
    (
      run_dashboard-Quiet es _ (mount_dashboard-Quiet imp (begin st) fresh),
      run_admin-Quiet es _ (mount_admin-Quiet (begin st) fresh),
    )
