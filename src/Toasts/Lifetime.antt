-- ===== src/Toasts/Lifetime.antt =====
-- How long a toast stays, and what closing one removes.
use nexra.Prelude.{
  ℕ, ◌+◌, ◌<◌, ◌≡◌, refl, Bool, true, false, not, ◌&&◌, ◌||◌, List, [], ◌∷◌, ◌++◌, arith, leb, ltb,
  ◌==◌, if◌then◌else◌, filter, count, All, All-append, All-filter, All-both, Option, String,
  Bool-cases, inl, inr, ◌∙◌,
}
use nexra.Toasts.{
  Toast, Timer, Toasts, Variant, no_toasts, without, show_toast, remove_toast, fire_due, elapse,
  Event, shown, removed, elapsed, step, run,
}

-- A timer for this id is set.
abbrev timed : List Timer → ℕ → Bool
timed [] id = false
timed (m ∷ ms) id = m.id == id || timed ms id

-- Such a timer is set and due.
abbrev due_for : ℕ → List Timer → ℕ → Bool
due_for now [] id = false
due_for now (m ∷ ms) id = (leb m.due now && m.id == id) || due_for now ms id

abbrev IsFourSeconds : Timer → Type 0
IsFourSeconds m = m.due ≡ m.id + 4000

abbrev IsTimed : List Timer → Toast → Type 0
IsTimed ms t = timed ms t.id ≡ true

pub record Inv (s : Toasts) : Type 0 where
  pub four_seconds : All IsFourSeconds s.timers
  pub all_timed : All (IsTimed s.timers) s.toasts

timed-append : (ms ns : List Timer) (id : ℕ) → timed (ms ++ ns) id ≡ (timed ms id || timed ns id)
timed-append [] ns id = refl
timed-append (m ∷ ms) ns id = ground (arith, timed-append ms ns id)

IsTimed-append :
    (ms ns : List Timer) (ts : List Toast) → All (IsTimed ms) ts → All (IsTimed (ms ++ ns)) ts
IsTimed-append ms ns [] h = tt
IsTimed-append ms ns (t ∷ ts) h =
    (ground (arith, timed-append ms ns t.id), IsTimed-append ms ns ts h.1)

-- One round of `fire_due`.
abbrev fire : ℕ → Timer → List Toast → List Toast
fire now m ts = if leb m.due now then without m.id ts else ts

fire-All :
    (P : Toast → Type 0) (now : ℕ) (m : Timer) (ts : List Toast) → All P ts → All P (fire now m ts)
fire-All P now m ts h = elim (Bool-cases (leb m.due now)) [
  | inl due ↦ rw due (All-filter P (λ t. not (t.id == m.id)) ts h)
  | inr early ↦ rw early h
]

fire_due-All :
    (P : Toast → Type 0) (now : ℕ) (ms : List Timer) (ts : List Toast)
    → All P ts
    → All P (fire_due now ms ts)
unfolding fire_due
fire_due-All P now [] ts h = h
fire_due-All P now (m ∷ ms) ts h = fire_due-All P now ms _ (fire-All P now m ts h)

without-All : (id : ℕ) (ts : List Toast) → All (λ t. (id == t.id) ≡ false) (without id ts)
without-All id [] = tt
without-All id (t ∷ ts) = ground (arith, without-All id ts)

All-false : (b : ℕ → Bool) (ts : List Toast) → All (λ t. (false && b t.id) ≡ false) ts
All-false b [] = tt
All-false b (t ∷ ts) = (refl, All-false b ts)

fire_gone :
    (now : ℕ) (m : Timer) (ts : List Toast)
    → All (λ t. (leb m.due now && m.id == t.id) ≡ false) (fire now m ts)
fire_gone now m ts = elim (Bool-cases (leb m.due now)) [
  | inl due ↦ rw due (without-All m.id ts)
  | inr early ↦ rw early (All-false (λ i. m.id == i) ts)
]

-- A toast that survives `fire_due` is named by no timer that was due.
fire_due_gone :
    (now : ℕ) (ms : List Timer) (ts : List Toast)
    → All (λ t. due_for now ms t.id ≡ false) (fire_due now ms ts)
unfolding fire_due
fire_due_gone now [] ts = none_due ts
  where
    none_due : (us : List Toast) → All (λ t. due_for now [] t.id ≡ false) us
    none_due [] = tt
    none_due (u ∷ us) = (refl, none_due us)
fire_due_gone now (m ∷ ms) ts =
    All-both (λ t. (leb m.due now && m.id == t.id) ≡ false) (λ t. due_for now ms t.id ≡ false)
      (λ t. due_for now (m ∷ ms) t.id ≡ false) (fire_due now ms (fire now m ts))
      (λ t h k. ground arith) (fire_due-All _ now ms (fire now m ts) (fire_gone now m ts))
      (fire_due_gone now ms (fire now m ts))

-- The timers that stay are those after `now`.
abbrev later : ℕ → List Timer → List Timer
later now = filter (λ m. ltb now m.due)

timed-later :
    (now id : ℕ) (ms : List Timer)
    → timed ms id ≡ true
    → due_for now ms id ≡ false
    → timed (later now ms) id ≡ true
timed-later now id [] h k = h
timed-later now id (m ∷ ms) h k = ground (arith, timed-later now id ms)

alive :
    (now id : ℕ) (ms : List Timer)
    → All IsFourSeconds ms
    → timed ms id ≡ true
    → due_for now ms id ≡ false
    → now < id + 4000
alive now id [] f h k = cc
alive now id (m ∷ ms) f h k = ground (arith, alive now id ms f.1)

step-Inv : (e : Event) (s : Toasts) → Inv s → Inv (step e s)
unfolding step show_toast remove_toast elapse
step-Inv (shown now message variant) s v = record {
  four_seconds = All-append IsFourSeconds s.timers _ v.four_seconds (refl, tt);
  all_timed =
      All-append (IsTimed _) s.toasts _ (IsTimed-append s.timers _ s.toasts v.all_timed) (
        ground (arith, timed-append s.timers (record { due = now + 4000; id = now } ∷ []) now),
        tt,
      );
}
step-Inv (removed id) s v = record {
  four_seconds = v.four_seconds;
  all_timed = All-filter (IsTimed s.timers) _ s.toasts v.all_timed;
}
step-Inv (elapsed now) s v = record {
  four_seconds = All-filter IsFourSeconds _ s.timers v.four_seconds;
  all_timed =
      All-both (IsTimed s.timers) (λ t. due_for now s.timers t.id ≡ false)
        (IsTimed (later now s.timers)) (fire_due now s.timers s.toasts)
        (λ t h k. timed-later now t.id s.timers h k)
        (fire_due-All (IsTimed s.timers) now s.timers s.toasts v.all_timed)
        (fire_due_gone now s.timers s.toasts);
}

run-Inv : (es : List Event) (s : Toasts) → Inv s → Inv (run es s)
unfolding run
run-Inv [] s v = v
run-Inv (e ∷ es) s v = run-Inv es (step e s) (step-Inv e s v)

elapse-alive : (now : ℕ) (s : Toasts) → Inv s → All (λ t. now < t.id + 4000) (elapse now s).toasts
unfolding elapse
elapse-alive now s v =
    All-both (IsTimed s.timers) (λ t. due_for now s.timers t.id ≡ false) (λ t. now < t.id + 4000)
      (fire_due now s.timers s.toasts) (λ t h k. alive now t.id s.timers v.four_seconds h k)
      (fire_due-All (IsTimed s.timers) now s.timers s.toasts v.all_timed)
      (fire_due_gone now s.timers s.toasts)

-- Whatever happened before, once the timers that are due at `now` have fired, every toast on the
-- screen was shown less than four seconds ago.
pub run-elapse-alive :
    (es : List Event) (now : ℕ)
    → All (λ t. now < t.id + 4000) (elapse now (run es no_toasts)).toasts
run-elapse-alive es now =
    elapse-alive now (run es no_toasts)
      (run-Inv es no_toasts (record { four_seconds = tt; all_timed = tt }))

count-without :
    (a b : ℕ) (ts : List Toast)
    → count (λ t. t.id == b) (without a ts) ≡ (if a == b then 0 else count (λ t. t.id == b) ts)
count-without a b [] = ground arith
count-without a b (t ∷ ts) = ground (arith, count-without a b ts)

-- Closing a toast removes every toast of its millisecond and none of any other, and sets or clears
-- no timer.
pub remove_toast-count :
    (a b : ℕ) (s : Toasts)
    → (count (λ t. t.id == b) (remove_toast a s).toasts
        ≡ (if a == b then 0 else count (λ t. t.id == b) s.toasts))
      × ((remove_toast a s).timers ≡ s.timers)
unfolding remove_toast
remove_toast-count a b s = (count-without a b s.toasts, refl)

-- Two toasts shown in one millisecond share their identity: closing either closes both.
pub show_toast_collision :
    (now : ℕ) (m n : String) (v w : Option Variant) (s : Toasts)
    → count (λ t. t.id == now) (remove_toast now (show_toast now n w (show_toast now m v s))).toasts
      ≡ 0
unfolding remove_toast
show_toast_collision now m n v w s = count-without now now _ ∙ (ground arith)
