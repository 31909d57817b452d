-- ===== src/Palette/Selection.antt =====
-- The highlighted result, and answers that come late.
use nexra.Prelude.{
  ℕ, zero, suc, ◌≡◌, refl, true, false, ◌||◌, Option, none, some, List, [], ◌∷◌, Text, ltb,
  is_empty, length, get_elem?, is_some, arith,
}
use nexra.Palette.{
  Palette, Result, Event, toggled, escaped, due, typed, answered, pressed, arrow_down, arrow_up,
  enter, Key, step, run, toggle_open, press_escape, handle_search, search_due, searched, handle_key,
  handle_action, Found,
}

-- There is no result, or the highlighted one is among them.
abbrev pub InResults : Palette → Type 0
InResults p = (is_empty p.results || ltb p.active_index (length p.results)) ≡ true

empty-or-pos : (rs : List Result) → (is_empty rs || ltb 0 (length rs)) ≡ true
empty-or-pos [] = refl
empty-or-pos (r ∷ rs) = ground arith

handle_action-InResults :
    (r : Option Result) (p : Palette) → InResults p → InResults (handle_action r p)
unfolding handle_action
handle_action-InResults none p h = h
handle_action-InResults (some r) p h = ground (arith, h)

handle_key-InResults : (key : Key) (p : Palette) → InResults p → InResults (handle_key key p)
unfolding handle_key
handle_key-InResults arrow_down p h = ground arith
handle_key-InResults arrow_up p h = ground arith
handle_key-InResults enter p h =
    ground (arith, handle_action-InResults (get_elem? p.results p.active_index) p h)

-- Enter acts on a result that is there.
enter-is_some :
    (rs : List Result) (i : ℕ) → ltb i (length rs) ≡ true → is_some (get_elem? rs i) ≡ true
enter-is_some [] i h = absurd (ground arith)
enter-is_some (r ∷ rs) zero h = refl
enter-is_some (r ∷ rs) (suc i) h = enter-is_some rs i (ground arith)

module _ (lower : Text → Text) where
  searched-InResults :
      (term : Text) (answer : Option Found) (p : Palette) → InResults (searched lower term answer p)
  unfolding searched
  searched-InResults term answer p = empty-or-pos (searched lower term answer p).results

  step-InResults : (e : Event) (p : Palette) → InResults p → InResults (step lower e p)
  unfolding step toggle_open press_escape handle_search search_due
  step-InResults toggled p h = ground arith
  step-InResults escaped p h = ground arith
  step-InResults due p h = ground arith
  step-InResults (typed term) p h = ground arith
  step-InResults (answered term answer) p h = searched-InResults term answer p
  step-InResults (pressed key) p h = ground (arith, handle_key-InResults key p h)

  run-InResults : (es : List Event) (p : Palette) → InResults p → InResults (run lower es p)
  unfolding run
  run-InResults [] p h = h
  run-InResults (e ∷ es) p h = run-InResults es (step lower e p) (step-InResults e p h)

  -- Whatever is typed, answered and pressed in whatever order, from a palette without results or
  -- whose highlighted one is among them: when there are results the highlighted one is among them,
  -- so Enter acts on a result that is there.
  pub run-get_elem? :
      (es : List Event) (p : Palette)
      → InResults p
      → is_empty (run lower es p).results ≡ false
      → is_some (get_elem? (run lower es p).results (run lower es p).active_index) ≡ true
  run-get_elem? es p h k =
      let q = run lower es p in
      let v : InResults q = run-InResults es p h in
      enter-is_some q.results q.active_index (ground (arith, v, k))
