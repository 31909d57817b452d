-- ===== src/ApiClient.antt =====
-- nexra-dashboard/src/api/client.js: the interceptors around every request. Requests run side by
-- side, so the client holds a job for each of them, in the order of their issue, and an event is one
-- turn of the browser's event loop: an issue, an answer, or the end of a token refresh.
pub mod Refresh
pub mod Absent
pub mod Progress
mod Tests
use nexra.Prelude.{
  ℕ, ◌+◌, ◌≡◌, inl, inr, Option-cases, Bool-cases, Bool, true, false, not, ◌&&◌, Option, none, some,
  List, [], ◌∷◌, ◌++◌, ◌==◌, if◌then◌else◌, is_some, get_elem?, set, get_or_else,
}

-- `localStorage`, as far as the client reads it. A token is known by a number.
pub record Storage : Type 0 where
  pub access_token : Option ℕ
  pub refresh_token : Option ℕ

pub data Phase : Type 0 where
  in_flight refreshing resolved rejected : Phase

-- A request: `retried` is `config._retry`, `authorization` the token in its header.
pub record Job : Type 0 where
  pub retried : Bool
  pub phase : Phase
  pub authorization : Option ℕ
  pub sends : ℕ

pub record Client : Type 0 where
  pub storage : Storage
  pub is_refreshing : Bool
  pub redirects : ℕ
  pub jobs : List Job

-- The request interceptor, and the dispatch that follows it.
pub request_interceptor : Storage → Job → Job
request_interceptor st j = elim st.access_token [
  | none ↦ record j { phase = in_flight; sends = j.sends + 1 }
  | some token ↦ record j { phase = in_flight; authorization = some token; sends = j.sends + 1 }
]

abbrev pub fresh_job : Job
fresh_job = record { retried = false; phase = in_flight; authorization = none; sends = 0 }

pub issue : Client → Client
unfolding request_interceptor
issue c = record c { jobs = c.jobs ++ request_interceptor c.storage fresh_job ∷ [] }

-- Both tokens are removed, the page goes to the login, and the request is rejected.
pub expire : ℕ → Job → Client → Client
expire i j c = record c {
  storage = record { access_token = none; refresh_token = none };
  redirects = c.redirects + 1;
  jobs = set c.jobs i (record j { phase = rejected });
}

abbrev pub is_401 : Option ℕ → Bool
is_401 none = false
is_401 (some status) = status == 401

-- The response interceptor on an error; `none` is an error without a response.
pub on_error : ℕ → Option ℕ → Job → Client → Client
unfolding expire
on_error i status j c =
    if is_401 status && not j.retried
    then if is_some c.storage.refresh_token && not c.is_refreshing
      then record c { is_refreshing = true; jobs = set c.jobs i (record j { phase = refreshing }) }
      else expire i j c
    else record c { jobs = set c.jobs i (record j { phase = rejected }) }

pub on_response : ℕ → Job → Client → Client
on_response i j c = record c { jobs = set c.jobs i (record j { phase = resolved }) }

-- After `await axios.post('/auth/refresh')`: the tokens are stored and the request is sent again.
pub on_refreshed : ℕ → ℕ → Option ℕ → Job → Client → Client
unfolding request_interceptor
on_refreshed i access refresh j c =
    let st : Storage = record {
      access_token = some access;
      refresh_token = elim refresh [ none ↦ c.storage.refresh_token | some r ↦ some r ];
    } in
    let again : Job = record j { retried = true; authorization = some access } in
    record c {
      storage = st;
      is_refreshing = false;
      jobs = set c.jobs i (request_interceptor st again);
    }

pub on_refresh_failed : ℕ → Job → Client → Client
unfolding expire
on_refresh_failed i j c = expire i j (record c { is_refreshing = false })

pub data Event : Type 0 where
  issued : Event
  answered : ℕ → Event
  failed : ℕ → Option ℕ → Event
  refreshed : ℕ → ℕ → Option ℕ → Event
  refresh_failed : ℕ → Event

abbrev pub is_in_flight : Phase → Bool
is_in_flight in_flight = true
is_in_flight _ = false

abbrev pub is_waiting : Phase → Bool
is_waiting refreshing = true
is_waiting _ = false

-- An event reaches a job only in the phase that can receive it.
abbrev pub on_job : (Phase → Bool) → ℕ → (Job → Client → Client) → Client → Client
on_job ready i handler c = elim (get_elem? c.jobs i) [
  | none ↦ c
  | some j ↦ if ready j.phase then handler j c else c
]

pub step : Event → Client → Client
step issued c = issue c
step (answered i) c = on_job is_in_flight i (on_response i) c
step (failed i status) c = on_job is_in_flight i (on_error i status) c
step (refreshed i access refresh) c = on_job is_waiting i (on_refreshed i access refresh) c
step (refresh_failed i) c = on_job is_waiting i (on_refresh_failed i) c

pub run : List Event → Client → Client
run [] c = c
run (e ∷ es) c = run es (step e c)

-- What every call of a handler keeps, an event keeps.
pub on_job_cases :
    (P : Client → Type 0) (ready : Phase → Bool) (i : ℕ) (handler : Job → Client → Client)
    (c : Client)
    → P c
    → ((j : Job) → get_elem? c.jobs i ≡ some j → ready j.phase ≡ true → P (handler j c))
    → P (on_job ready i handler c)
on_job_cases P ready i handler c v keep = elim (Option-cases (get_elem? c.jobs i)) [
  | inl gone ↦ rw (gone, on_job) v
  | inr (j, here) ↦
      rw (here, on_job)
        (elim (Bool-cases (ready j.phase)) [
          | inl ok ↦ rw ok (keep j here ok)
          | inr late ↦ rw late v
        ])
]

-- The page after loading: no request, and what the storage holds.
abbrev pub start : Storage → Client
start st = record { storage = st; is_refreshing = false; redirects = 0; jobs = [] }
