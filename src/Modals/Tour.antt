-- ===== src/Modals/Tour.antt =====
-- nexra-dashboard/src/components/TourModal.js: the four steps of the tour.
use nexra.Prelude.{
  ℕ, ◌+◌, ◌-◌, ◌<◌, ◌≡◌, refl, Bool, true, false, ◌&&◌, List, [], ◌∷◌, ltb, if◌then◌else◌, arith,
}

abbrev pub steps : ℕ
steps = 4

pub record TourState : Type 0 where
  pub is_open : Bool
  pub current_step : ℕ
  pub completed : Bool

-- The timer of the first render runs unless the tour was completed.
pub appear : TourState → TourState
appear p = if p.completed then p else record p { is_open = true }

pub complete_tour : TourState → TourState
complete_tour p = record p { completed = true; is_open = false }

pub next_step : TourState → TourState
unfolding complete_tour
next_step p =
    if ltb p.current_step (steps - 1)
    then record p { current_step = p.current_step + 1 }
    else complete_tour p

pub prev_step : TourState → TourState
prev_step p = if ltb 0 p.current_step then record p { current_step = p.current_step - 1 } else p

-- The buttons are there while the dialog is open.
pub data Button : Type 0 where
  next back skip : Button

pub press : Button → TourState → TourState
press next p = if p.is_open then next_step p else p
press back p = if p.is_open then prev_step p else p
press skip p = if p.is_open then complete_tour p else p

pub press_each : List Button → TourState → TourState
press_each [] p = p
press_each (b ∷ bs) p = press_each bs (press b p)

-- A step of the tour, and a closed dialog only after completion.
abbrev pub IsTour : TourState → Type 0
IsTour p = (p.current_step < steps) × ((p.is_open && p.completed) ≡ false)

press-IsTour : (b : Button) (p : TourState) → IsTour p → IsTour (press b p)
unfolding press next_step prev_step complete_tour
press-IsTour next p v = ground (arith, v)
press-IsTour back p v = ground (arith, v)
press-IsTour skip p v = ground (arith, v)

press_each-IsTour : (bs : List Button) (p : TourState) → IsTour p → IsTour (press_each bs p)
unfolding press_each
press_each-IsTour [] p v = v
press_each-IsTour (b ∷ bs) p v = press_each-IsTour bs (press b p) (press-IsTour b p v)

abbrev pub first_view : TourState
first_view = record { is_open = false; current_step = 0; completed = false }

-- Whatever buttons are pressed after the tour has appeared to a user who has not completed it, its
-- step is one of the four, and it is not open once it is completed.
pub press_each-IsTour_first : (bs : List Button) → IsTour (press_each bs (appear first_view))
unfolding appear
press_each-IsTour_first bs =
    press_each-IsTour bs (record first_view { is_open = true }) (omega arith, refl)
