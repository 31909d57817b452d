-- ===== src/Layout/Search/Late.antt =====
-- What an answer to the search does after the palette was closed.
use nexra.Prelude.{ℕ, suc, ◌≡◌, true, some, [], trim, arith}
use nexra.Layout.Search.{
  Found, Search, set_query, open_search, close_search, answer_of, answered, listed, view, pressed_k,
  pressed_escape, ended, step,
}

-- The answer to a search that was closed before it came is listed by the next opening, under an
-- empty input.
pub answered-close_search :
    (f : Found) (n : ℕ) (p : Search)
    → p.is_open ≡ true
    → p.in_flight ≡ suc n
    → let after = step pressed_k (step (ended (some f)) (step pressed_escape p)) in
      (after.query ≡ []) × (view after ≡ listed f)
unfolding step close_search set_query answered answer_of open_search view trim
answered-close_search f n p o k = ground (arith, o, k)
