-- ===== src/ApiClient/Refresh.antt =====
-- What holds of the refresh whatever the order of the events.
use nexra.Prelude.{
  ℕ, ◌+◌, ◌≤◌, ◌≡◌, inl, inr, refl, Bool, true, false, not, ◌&&◌, Option, none, some, List, [], ◌∷◌,
  if◌then◌else◌, is_some, get_elem?, set, arith, All, All-append, All-set, All-get_elem?, count,
  count-append, get_elem?-set_self, count-set, one_if-le-count, one_if, Bool-cases,
}
use nexra.ApiClient.{
  Storage, in_flight, refreshing, resolved, rejected, Job, Client, request_interceptor, fresh_job,
  issue, expire, is_401, on_error, on_response, on_refreshed, on_refresh_failed, Event, issued,
  answered, failed, refreshed, refresh_failed, is_in_flight, is_waiting, step, run, start,
  on_job_cases,
}

abbrev waiting : Job → Bool
waiting j = is_waiting j.phase

-- A request goes out once, and once more only after a refresh.
abbrev pub IsBounded : Job → Type 0
IsBounded j = j.sends ≡ (if j.retried then 2 else 1)

-- A retried request never waits for a refresh.
abbrev pub RetriedOnce : Job → Type 0
RetriedOnce j = (j.retried && waiting j) ≡ false

pub record Inv (c : Client) : Type 0 where
  pub one_refresh : count waiting c.jobs ≡ one_if c.is_refreshing
  pub bounded : All IsBounded c.jobs
  pub once : All RetriedOnce c.jobs

issue-Inv : (c : Client) → Inv c → Inv (issue c)
unfolding issue request_interceptor
issue-Inv c v = record {
  one_refresh = ground (arith, count-append waiting c.jobs (sent ∷ []), v.one_refresh);
  bounded = All-append IsBounded c.jobs (sent ∷ []) v.bounded (ground arith);
  once = All-append RetriedOnce c.jobs (sent ∷ []) v.once (ground arith);
}
  where
    sent : Job
    sent = request_interceptor c.storage fresh_job

module _ (i : ℕ) (j : Job) (c : Client) (here : get_elem? c.jobs i ≡ some j) (v : Inv c) where
  put :
      (k : Job) (b : Bool)
      → one_if (waiting k) + one_if c.is_refreshing ≡ one_if (waiting j) + one_if b
      → IsBounded k
      → RetriedOnce k
      → (st : Storage) (n : ℕ)
      → Inv (record c { storage = st; is_refreshing = b; redirects = n; jobs = set c.jobs i k })
  put k b e h r st n = record {
    one_refresh = omega (arith, count-set waiting c.jobs i k here, v.one_refresh);
    bounded = All-set IsBounded c.jobs i k v.bounded h;
    once = All-set RetriedOnce c.jobs i k v.once r;
  }

  IsBounded-here : IsBounded j
  IsBounded-here = All-get_elem? IsBounded c.jobs i v.bounded here

  RetriedOnce-here : RetriedOnce j
  RetriedOnce-here = All-get_elem? RetriedOnce c.jobs i v.once here

  expire-Inv :
      (b : Bool)
      → one_if c.is_refreshing ≡ one_if (waiting j) + one_if b
      → Inv (expire i j (record c { is_refreshing = b }))
  unfolding expire
  expire-Inv b e =
      put (record j { phase = rejected }) b (omega (arith, e)) IsBounded-here (ground arith) _ _

  on_response-Inv : is_in_flight j.phase ≡ true → Inv (on_response i j c)
  unfolding on_response
  on_response-Inv p =
      put (record j { phase = resolved }) c.is_refreshing (ground arith) IsBounded-here
        (ground arith) _ _

  on_error-Inv : (status : Option ℕ) → is_in_flight j.phase ≡ true → Inv (on_error i status j c)
  unfolding on_error
  on_error-Inv status p = elim (Bool-cases (is_401 status && not j.retried)) [
    | inr other ↦
        rw (other, on_error)
          (put (record j { phase = rejected }) c.is_refreshing (ground arith) IsBounded-here
            (ground arith) _ _)
    | inl fresh ↦
        rw (fresh, on_error)
          (elim (Bool-cases (is_some c.storage.refresh_token && not c.is_refreshing)) [
            | inl can ↦
                rw (can, on_error)
                  (put (record j { phase = refreshing }) true (ground arith) IsBounded-here
                    (ground arith) _ _)
            | inr cannot ↦ rw (cannot, on_error) (expire-Inv c.is_refreshing (ground arith))
          ])
  ]

  busy : is_waiting j.phase ≡ true → c.is_refreshing ≡ true
  busy p =
      let some_waiting : 1 ≤ one_if c.is_refreshing =
        rw (← v.one_refresh) (rw p at (one_if-le-count waiting c.jobs i here)) in
      ground arith

  on_refreshed-Inv :
      (access : ℕ) (refresh : Option ℕ)
      → is_waiting j.phase ≡ true
      → Inv (on_refreshed i access refresh j c)
  unfolding on_refreshed request_interceptor
  on_refreshed-Inv access refresh p =
      put
        (record j {
          retried = true;
          phase = in_flight;
          authorization = some access;
          sends = j.sends + 1;
        })
        false (ground (arith, busy p)) (ground (arith, IsBounded-here, RetriedOnce-here)) refl _ _

  on_refresh_failed-Inv : is_waiting j.phase ≡ true → Inv (on_refresh_failed i j c)
  unfolding on_refresh_failed
  on_refresh_failed-Inv p = expire-Inv false (ground (arith, busy p))

step-Inv : (e : Event) (c : Client) → Inv c → Inv (step e c)
unfolding step
step-Inv issued c v = issue-Inv c v
step-Inv (answered i) c v =
    on_job_cases Inv is_in_flight i (on_response i) c v (λ j here p. on_response-Inv i j c here v p)
step-Inv (failed i status) c v =
    on_job_cases Inv is_in_flight i (on_error i status) c v
      (λ j here p. on_error-Inv i j c here v status p)
step-Inv (refreshed i access refresh) c v =
    on_job_cases Inv is_waiting i (on_refreshed i access refresh) c v
      (λ j here p. on_refreshed-Inv i j c here v access refresh p)
step-Inv (refresh_failed i) c v =
    on_job_cases Inv is_waiting i (on_refresh_failed i) c v
      (λ j here p. on_refresh_failed-Inv i j c here v p)

run-Inv : (es : List Event) (c : Client) → Inv c → Inv (run es c)
unfolding run
run-Inv [] c v = v
run-Inv (e ∷ es) c v = run-Inv es (step e c) (step-Inv e c v)

-- From a fresh page, whatever events come in whatever order: one request waits for a refresh while
-- the flag is set and none while it is not, every request has gone out once, or twice if it was
-- retried, and no retried request waits for another refresh.
pub run-start-Inv : (es : List Event) (st : Storage) → Inv (run es (start st))
run-start-Inv es st = run-Inv es (start st) (record { one_refresh = refl; bounded = tt; once = tt })

-- A request in flight that was not retried and gets a 401 while another one refreshes throws the
-- session away: both tokens are removed, the page goes to the login and the request is rejected,
-- although the flag says that a refresh is still under way.
pub failed_during_refresh :
    (c : Client) (i : ℕ) (j : Job)
    → get_elem? c.jobs i ≡ some j
    → j.phase ≡ in_flight
    → j.retried ≡ false
    → c.is_refreshing ≡ true
    → let after = step (failed i (some 401)) c in
      (after.storage ≡ record { access_token = none; refresh_token = none })
      × (after.redirects ≡ c.redirects + 1)
      × (get_elem? after.jobs i ≡ some (record j { phase = rejected }))
      × (after.is_refreshing ≡ true)
unfolding step on_error expire
failed_during_refresh c i j here p r b =
    ground (arith, get_elem?-set_self c.jobs i (record j { phase = rejected }) here)

-- When the refresh that a request waits for succeeds, the new access token is stored, the old
-- refresh token is kept unless a new one came, the flag is cleared, the request is sent once more
-- under the new token and marked as retried, and the page stays where it is.
pub refreshed_sends_again :
    (c : Client) (i access : ℕ) (refresh : Option ℕ) (j : Job)
    → get_elem? c.jobs i ≡ some j
    → j.phase ≡ refreshing
    → let after = step (refreshed i access refresh) c in
      (after.storage.access_token ≡ some access)
      × (after.storage.refresh_token
          ≡ (elim refresh [ none ↦ c.storage.refresh_token | some r ↦ some r ]))
      × (after.is_refreshing ≡ false)
      × (after.redirects ≡ c.redirects)
      × (get_elem? after.jobs i
          ≡ some (record {
            retried = true;
            phase = in_flight;
            authorization = some access;
            sends = j.sends + 1;
          }))
unfolding step on_refreshed request_interceptor
refreshed_sends_again c i access refresh j here p =
    let again : Job = record {
      retried = true;
      phase = in_flight;
      authorization = some access;
      sends = j.sends + 1;
    } in
    ground (arith, get_elem?-set_self c.jobs i again here)
