-- ===== src/ApiClient/Progress.antt =====
-- The answers that the open requests wait for, as a relation between states of the client, and why
-- they run out.
use mathlib.Core.WellFounded.{Acc}
use nexra.Prelude.{
  all, ℕ, ◌+◌, ◌<◌, ◌≡◌, inl, inr, ◌⊎◌, refl, Bool, true, false, not, ◌&&◌, Option, some, List, [],
  ◌∷◌, zero, suc, is_some, get_elem?, set, arith, Bool-cases,
}
use nexra.ApiClient.{
  Phase, in_flight, refreshing, resolved, rejected, Job, Client, request_interceptor, expire,
  is_in_flight, is_waiting, is_401, on_error, on_response, on_refreshed, on_refresh_failed,
}

-- One answer reaches one request: its response, an error, or the end of the refresh it waits for.
pub data Turn : Client → Client → Type 0 where
  respond :
      (c : Client) (i : ℕ) (j : Job)
      → get_elem? c.jobs i ≡ some j
      → j.phase ≡ in_flight
      → Turn c (on_response i j c)
  fail :
      (c : Client) (i : ℕ) (j : Job) (status : Option ℕ)
      → get_elem? c.jobs i ≡ some j
      → j.phase ≡ in_flight
      → Turn c (on_error i status j c)
  refresh :
      (c : Client) (i : ℕ) (j : Job) (access : ℕ) (token : Option ℕ)
      → get_elem? c.jobs i ≡ some j
      → j.phase ≡ refreshing
      → Turn c (on_refreshed i access token j c)
  give_up :
      (c : Client) (i : ℕ) (j : Job)
      → get_elem? c.jobs i ≡ some j
      → j.phase ≡ refreshing
      → Turn c (on_refresh_failed i j c)

-- How many answers a request can still take.
abbrev turns_of : Phase → Bool → ℕ
turns_of in_flight true = 1
turns_of in_flight false = 3
turns_of refreshing _ = 2
turns_of _ _ = 0

abbrev pub turns_left : Job → ℕ
turns_left j = turns_of j.phase j.retried

unfoldable pub total_turns : List Job → ℕ
total_turns [] = 0
total_turns (j ∷ js) = turns_left j + total_turns js

total_turns-set :
    (js : List Job) (i : ℕ) {j : Job} (k : Job)
    → get_elem? js i ≡ some j
    → turns_left k < turns_left j
    → total_turns (set js i k) < total_turns js
unfolding total_turns
total_turns-set [] i k e h = absurd (ground arith)
total_turns-set (x ∷ js) zero k e h = ground (arith, h)
total_turns-set (x ∷ js) (suc i) k e h = omega (arith, total_turns-set js i k e h)

module _ (i : ℕ) (j : Job) (c : Client) (here : get_elem? c.jobs i ≡ some j) where
  fewer :
      (k : Job) → turns_left k < turns_left j → total_turns (set c.jobs i k) < total_turns c.jobs
  fewer k h = total_turns-set c.jobs i k here h

  on_error-fewer :
      (status : Option ℕ)
      → j.phase ≡ in_flight
      → total_turns (on_error i status j c).jobs < total_turns c.jobs
  unfolding on_error expire
  on_error-fewer status p = elim (Bool-cases (is_401 status && not j.retried)) [
    | inr other ↦ rw (other, on_error) (fewer (record j { phase = rejected }) (ground (arith, p)))
    | inl fresh ↦
        rw (fresh, on_error)
          (elim (Bool-cases (is_some c.storage.refresh_token && not c.is_refreshing)) [
            | inl can ↦
                rw (can, on_error)
                  (fewer (record j { phase = refreshing }) (ground (arith, p, fresh)))
            | inr cannot ↦
                rw (cannot, on_error) (fewer (record j { phase = rejected }) (ground (arith, p)))
          ])
  ]

Turn-total_turns : (c d : Client) → Turn c d → total_turns d.jobs < total_turns c.jobs
unfolding on_response on_refreshed on_refresh_failed expire request_interceptor
Turn-total_turns _ _ (respond c i j e p) =
    fewer i j c e (record j { phase = resolved }) (ground (arith, p))
Turn-total_turns _ _ (fail c i j status e p) = on_error-fewer i j c e status p
Turn-total_turns _ _ (refresh c i j access token e p) = fewer i j c e _ (ground (arith, p))
Turn-total_turns _ _ (give_up c i j e p) =
    fewer i j c e (record j { phase = rejected }) (ground (arith, p))

-- `d` comes of `c` by one answer.
abbrev pub After : Client → Client → Type 0
After d c = Turn c d

turns_bounded : (n : ℕ) (c : Client) → total_turns c.jobs < n → Acc After c
turns_bounded zero c h = absurd (omega (arith, h))
turns_bounded (suc n) c h =
    Acc.intro c (λ d t. turns_bounded n d (omega (arith, Turn-total_turns c d t)))

-- From every state of the client, no infinite sequence of answers to its open requests exists: the
-- relation of an answer is well-founded there, although a request may be sent again after a
-- refresh.
pub After-Acc : (c : Client) → Acc After c
After-Acc c = turns_bounded (suc (total_turns c.jobs)) c (omega arith)

-- A request that is resolved or rejected waits for nothing.
abbrev pub is_closed : Job → Bool
is_closed j = not (is_in_flight j.phase) && not (is_waiting j.phase)

open_job :
    (js : List Job)
    → (all is_closed js ≡ true)
      ⊎ (i : ℕ) × (j : Job) × (get_elem? js i ≡ some j) × (is_closed j ≡ false)
open_job [] = inl refl
open_job (j ∷ js) = elim (Bool-cases (is_closed j)) [
  | inr waits ↦ inr (0, j, refl, waits)
  | inl done ↦ elim (open_job js) [
    | inl rest ↦ inl (ground (arith, done, rest))
    | inr (i, k, here, waits) ↦ inr (suc i, k, here, waits)
  ]
]

phase_cases : (j : Job) → is_closed j ≡ false → (j.phase ≡ in_flight) ⊎ (j.phase ≡ refreshing)
phase_cases j h = ground arith

-- Along every order of answers all requests come to be closed; until then an answer is due.
pub data Settles : Client → Type 0 where
  settled : (c : Client) → all is_closed c.jobs ≡ true → Settles c
  due : (c d : Client) → Turn c d → ((e : Client) → Turn c e → Settles e) → Settles c

Settles-of_Acc : (c : Client) → Acc After c → Settles c
Settles-of_Acc c (Acc.intro _ next) = elim (open_job c.jobs) [
  | inl closed ↦ settled c closed
  | inr (i, j, here, waits) ↦
      let rest : (d : Client) → Turn c d → Settles d = λ d t. Settles-of_Acc d (next d t) in
      elim (phase_cases j waits) [
        | inl p ↦ due c (on_response i j c) (respond c i j here p) rest
        | inr p ↦ due c (on_refresh_failed i j c) (give_up c i j here p) rest
      ]
]

-- From every state of the client, along every order in which the open requests get their answers
-- (responses, errors, and refreshes that succeed or fail), all requests come to be resolved or
-- rejected, and until then some answer is due.
pub client-Settles : (c : Client) → Settles c
client-Settles c = Settles-of_Acc c (After-Acc c)
