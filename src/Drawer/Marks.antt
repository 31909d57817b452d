-- ===== src/Drawer/Marks.antt =====
-- The selection of the drawer as the set of marked rows, which forgets the order of the clicks.
use mathlib.Core.Quot
use mathlib.Core.Quot.{Quot, Quot-set}
use mathlib.Core.Path.{fun_ext}
use nexra.Prelude.{
  ℕ, ◌≡◌, refl, Bool, not, List, [], ◌∷◌, Text, ◌==◌, if◌then◌else◌, all, includes, set_add,
  set_delete, includes-set_add, includes-set_delete, arith, Bool-cases, inl, inr,
}
use nexra.Drawer.{Drawer, filtered, failed_ids, toggle_select, toggle_select_all_failed}
use nexra.Drawer.Selection.{includes-toggled}

abbrev toggled : ℕ → List ℕ → List ℕ
toggled id s = if includes s id then set_delete s id else set_add s id

-- A click on the box of a row, or on "Select All Failed".
pub data Click : Type 0 where
  row : ℕ → Click
  all_failed : Click

pub click : (Text → Text) → Click → Drawer → Drawer
click lower (row id) d = toggle_select id d
click lower all_failed d = toggle_select_all_failed lower d

pub clicks : (Text → Text) → List Click → Drawer → Drawer
clicks lower [] d = d
clicks lower (c ∷ cs) d = clicks lower cs (click lower c d)

-- What a click means for the marks of the rows: a row changes its own, the box sets the marks of
-- the failed rows in view unless all of them are set, and then clears them.
abbrev pub Marks : Type 0
Marks = ℕ → Bool

pub mark : List ℕ → Click → Marks → Marks
mark failed (row id) m a = if id == a then not (m a) else m a
mark failed all_failed m a = if includes failed a then not (all m failed) else m a

pub marks : List ℕ → List Click → Marks → Marks
marks failed [] m = m
marks failed (c ∷ cs) m = marks failed cs (mark failed c m)

includes-toggled_row :
    (id : ℕ) (s : List ℕ) (a : ℕ)
    → includes (toggled id s) a ≡ (if id == a then not (includes s a) else includes s a)
includes-toggled_row id s a = elim (Bool-cases (includes s id)) [
  | inl e ↦ ground (arith, e, includes-set_delete s id a)
  | inr e ↦ ground (arith, e, includes-set_add s id a)
]

click-mark :
    (lower : Text → Text) (c : Click) (d : Drawer) (a : ℕ)
    → includes (click lower c d).selected a ≡ mark (failed_ids lower d) c (includes d.selected) a
unfolding click mark toggle_select toggle_select_all_failed
click-mark lower (row id) d a = includes-toggled_row id d.selected a
click-mark lower all_failed d a = includes-toggled (failed_ids lower d) d.selected a

click-failed_ids :
    (lower : Text → Text) (c : Click) (d : Drawer)
    → failed_ids lower (click lower c d) ≡ failed_ids lower d
unfolding click toggle_select toggle_select_all_failed failed_ids filtered
click-failed_ids lower (row id) d = refl
click-failed_ids lower all_failed d = refl

-- With `lower` for `toLowerCase`, after any clicks on the boxes of rows and on "Select All Failed",
-- the selected rows are those that the marks say: a click on a row changes its mark only, and the
-- box sets the marks of the failed rows in view, or clears them when all of them were set.
pub clicks-marks :
    (lower : Text → Text) (cs : List Click) (d : Drawer)
    → includes (clicks lower cs d).selected ≡ marks (failed_ids lower d) cs (includes d.selected)
unfolding clicks marks
clicks-marks lower [] d = refl
clicks-marks lower (c ∷ cs) d =
    rw
      (
        clicks-marks lower cs (click lower c d),
        click-failed_ids lower c d,
        fun_ext (click-mark lower c d),
      )
      refl

-- Two drawers show the same marks, whatever the order in which the rows were selected.
abbrev SameMarks : List ℕ → List ℕ → Type 0
SameMarks s t = (a : ℕ) → includes s a ≡ includes t a

abbrev pub Selection : Type 0
Selection = Quot SameMarks

toggled-SameMarks :
    (id : ℕ) (s t : List ℕ) → SameMarks s t → SameMarks (toggled id s) (toggled id t)
toggled-SameMarks id s t h a =
    ground (arith, includes-toggled_row id s a, includes-toggled_row id t a, h a)

pub flip : ℕ → Selection → Selection
flip id =
    Quot.lift Quot-set (λ s. Quot.mk (toggled id s))
      (λ s t h. Quot.sound (toggled-SameMarks id s t h))

pub selection : Drawer → Selection
selection d = Quot.mk d.selected

pub selection-toggle_select :
    (id : ℕ) (d : Drawer) → selection (toggle_select id d) ≡ flip id (selection d)
unfolding selection toggle_select flip
selection-toggle_select id d = refl

flip_comm : (a b : ℕ) (s : Selection) → flip a (flip b s) ≡ flip b (flip a s)
unfolding flip
flip_comm a b =
    Quot.ind (λ s. Quot-set _ _)
      (λ s. Quot.sound (λ c. ground (
        arith,
        includes-toggled_row a (toggled b s) c,
        includes-toggled_row b (toggled a s) c,
        includes-toggled_row a s c,
        includes-toggled_row b s c,
      )))

flip-flip : (a : ℕ) (s : Selection) → flip a (flip a s) ≡ s
unfolding flip
flip-flip a =
    Quot.ind (λ s. Quot-set _ _)
      (λ s.
        Quot.sound
          (λ c. ground (arith, includes-toggled_row a (toggled a s) c, includes-toggled_row a s c)))

-- Up to the order in which rows were selected, clicks on the boxes of two rows commute, and two
-- clicks on one box change nothing.
pub toggle_select-selection :
    (a b : ℕ) (d : Drawer)
    → (selection (toggle_select a (toggle_select b d))
        ≡ selection (toggle_select b (toggle_select a d)))
      × (selection (toggle_select a (toggle_select a d)) ≡ selection d)
toggle_select-selection a b d = (
  rw
      (
        selection-toggle_select a (toggle_select b d),
        selection-toggle_select b d,
        selection-toggle_select b (toggle_select a d),
        selection-toggle_select a d,
      )
      (flip_comm a b (selection d)),
  rw (selection-toggle_select a (toggle_select a d), selection-toggle_select a d)
      (flip-flip a (selection d)),
)
