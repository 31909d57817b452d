-- ===== src/ApiClient/Absent.antt =====
-- A client whose storage holds no refresh token.
use nexra.Prelude.{
  ℕ, ◌≡◌, refl, true, false, not, ◌&&◌, Option, none, some, [], ◌∷◌, arith, All, All-append,
  All-set, All-get_elem?, get_elem?, Bool-cases, inl, inr, set,
}
use nexra.ApiClient.{
  Phase, rejected, resolved, Job, Client, request_interceptor, fresh_job, issue, expire, is_401,
  on_error, on_response, Event, issued, answered, failed, refreshed, refresh_failed, is_in_flight,
  is_waiting, step, on_job_cases, on_refreshed, on_refresh_failed,
}

-- The request was never sent again and waits for no refresh.
abbrev pub IsPlain : Job → Type 0
IsPlain j = (j.retried ≡ false) × (is_waiting j.phase ≡ false)

pub record NoRefresh (c : Client) : Type 0 where
  pub absent : c.storage.refresh_token ≡ none
  pub idle : c.is_refreshing ≡ false
  pub plain : All IsPlain c.jobs

module _ (i : ℕ) (j : Job) (c : Client) (here : get_elem? c.jobs i ≡ some j) (v : NoRefresh c) where
  IsPlain-here : IsPlain j
  IsPlain-here = All-get_elem? IsPlain c.jobs i v.plain here

  closed : (p : Phase) → is_waiting p ≡ false → All IsPlain (set c.jobs i (record j { phase = p }))
  closed p h = All-set IsPlain c.jobs i (record j { phase = p }) v.plain (IsPlain-here.0, h)

  on_error-NoRefresh : (status : Option ℕ) → NoRefresh (on_error i status j c)
  unfolding on_error expire
  on_error-NoRefresh status = elim (Bool-cases (is_401 status && not j.retried)) [
    | inl fresh ↦
        rw (fresh, v.absent, on_error)
          (record { absent = refl; idle = v.idle; plain = closed rejected refl })
    | inr other ↦
        rw (other, on_error)
          (record { absent = v.absent; idle = v.idle; plain = closed rejected refl })
  ]

  not_waiting : is_waiting j.phase ≡ true → ⊥
  not_waiting w = ground (arith, IsPlain-here)

-- No event of the client brings a refresh token or starts a refresh.
pub step-NoRefresh : (e : Event) (c : Client) → NoRefresh c → NoRefresh (step e c)
unfolding step issue on_response request_interceptor
step-NoRefresh issued c v = record {
  absent = v.absent;
  idle = v.idle;
  plain =
      All-append IsPlain c.jobs (request_interceptor c.storage fresh_job ∷ []) v.plain
        (ground arith);
}
step-NoRefresh (answered i) c v =
    on_job_cases NoRefresh is_in_flight i (on_response i) c v λ j here p. record {
      absent = v.absent;
      idle = v.idle;
      plain = closed i j c here v resolved refl;
    }
step-NoRefresh (failed i status) c v =
    on_job_cases NoRefresh is_in_flight i (on_error i status) c v
      λ j here p. on_error-NoRefresh i j c here v status
step-NoRefresh (refreshed i access refresh) c v =
    on_job_cases NoRefresh is_waiting i (on_refreshed i access refresh) c v
      λ j here p. absurd (not_waiting i j c here v p)
step-NoRefresh (refresh_failed i) c v =
    on_job_cases NoRefresh is_waiting i (on_refresh_failed i) c v
      λ j here p. absurd (not_waiting i j c here v p)
