-- ===== src/Landing/Motion.antt =====
-- What the timers of the page move: the slider of testimonials, the phases of the map, and the
-- savings that belong to a position of the volume slider.
use native.Mathlib.Nat.{mod-lt, mod-eq_of_lt, mod-add-mod, mul-le-mul_right}
use nexra.Prelude.{
  ℕ, zero, suc, ◌+◌, ◌-◌, ◌*◌, ◌/◌, ◌%◌, ◌≤◌, ◌<◌, ◌≡◌, Bool, true, false, Option, none, some, List,
  [], ◌∷◌, ◌==◌, leb, if◌then◌else◌, get_elem?, length, arith, sym, ap, ◌∙◌,
}

-- `rotateSlides`
pub rotate_slides : ℕ → ℕ → ℕ
rotate_slides total_slides current_slide = (current_slide + 1) % total_slides

pub rotate_times : ℕ → ℕ → ℕ → ℕ
rotate_times zero total_slides current_slide = current_slide
rotate_times (suc n) total_slides current_slide =
    rotate_times n total_slides (rotate_slides total_slides current_slide)

-- How far the track moves to the left, in pixels.
pub offset : ℕ → ℕ → ℕ
offset container_width index = index * container_width

-- `initMapExpansion`: the phase and what is highlighted in it. A node is active exactly when its
-- line is drawn.
pub record Map : Type 0 where
  pub current_phase : ℕ
  pub cards_lit : List Bool
  pub west_africa_active : Bool
  pub global_active : Bool

-- One tick of its timer.
pub tick : Map → Map
tick m =
    let phase = m.current_phase % 3 + 1 in
    if phase == 1
    then record {
      current_phase = phase;
      cards_lit = true ∷ false ∷ false ∷ [];
      west_africa_active = false;
      global_active = false;
    }
    else if phase == 2
    then record {
      current_phase = phase;
      cards_lit = true ∷ true ∷ false ∷ [];
      west_africa_active = true;
      global_active = false;
    }
    else if phase == 3
    then record {
      current_phase = phase;
      cards_lit = true ∷ true ∷ true ∷ [];
      west_africa_active = true;
      global_active = true;
    }
    else record {
      current_phase = phase;
      cards_lit = false ∷ false ∷ false ∷ [];
      west_africa_active = false;
      global_active = false;
    }

pub tick_times : ℕ → Map → Map
tick_times zero m = m
tick_times (suc n) m = tick_times n (tick m)

-- The ROI calculator.
abbrev pub volume_values : List ℕ
volume_values =
    100 ∷ 200 ∷ 300 ∷ 400 ∷ 500 ∷ 1000 ∷ 2500 ∷ 5000 ∷ 10000 ∷ 25000 ∷ 50000 ∷ 100000 ∷ 250000
    ∷ 500000 ∷ 1000000 ∷ []

abbrev pub slider_max : ℕ
slider_max = length volume_values - 1

-- What is displayed: the volume, and `Math.round(volume * 0.04 * 12)`, whose exact value is 48
-- hundredths of the volume.
pub update_roi : ℕ → Option (ℕ × ℕ)
update_roi index = elim (get_elem? volume_values index) [
  | none ↦ none
  | some volume ↦ some (volume, (volume * 48 + 50) / 100)
]

rotate_times-mod : (n t c : ℕ) → c < t → rotate_times n t c ≡ (c + n) % t
unfolding rotate_times rotate_slides
rotate_times-mod zero t c h = sym (mod-eq_of_lt h) ∙ ap (λ x. x % t) (omega arith)
rotate_times-mod (suc n) t c h =
    rotate_times-mod n t ((c + 1) % t) (mod-lt (c + 1) (omega (arith, h)))
    ∙ (mod-add-mod (c + 1) t n ∙ ap (λ x. x % t) (omega arith))

-- A slide that exists lies on the track.
offset-le : (w t c : ℕ) → c < t → offset w c + w ≤ t * w
unfolding offset
offset-le w t c h = omega (arith, mul-le-mul_right w h)

-- From a slide that exists the slider comes, after any number of rotations, to the slide that many
-- places on, counted around the slides there are, and the track never moves past the last slide.
pub rotate_times-offset :
    (n total_slides current_slide container_width : ℕ)
    → current_slide < total_slides
    → (rotate_times n total_slides current_slide ≡ (current_slide + n) % total_slides)
      × (offset container_width (rotate_times n total_slides current_slide) + container_width
          ≤ total_slides * container_width)
rotate_times-offset n t c w h = (
  rotate_times-mod n t c h,
  rw (rotate_times-mod n t c h) (offset-le w t ((c + n) % t) (mod-lt (c + n) (omega (arith, h)))),
)

tick-phase :
    (m : Map)
    → ((tick m).current_phase ≡ m.current_phase % 3 + 1)
      × ((tick m).cards_lit
          ≡ true ∷ leb 2 (tick m).current_phase ∷ leb 3 (tick m).current_phase ∷ [])
      × ((tick m).west_africa_active ≡ leb 2 (tick m).current_phase)
      × ((tick m).global_active ≡ leb 3 (tick m).current_phase)
unfolding tick
tick-phase m = ground arith

-- From the first tick on the phase is 1, 2 or 3, as many cards are lit as the phase says, the nodes
-- of West Africa are active from the second phase on and the global ones in the third.
pub tick_times-phase :
    (n : ℕ) (m : Map)
    → let t = tick_times (suc n) m in
      (t.current_phase ≡ (m.current_phase + n) % 3 + 1)
      × (t.cards_lit ≡ true ∷ leb 2 t.current_phase ∷ leb 3 t.current_phase ∷ [])
      × (t.west_africa_active ≡ leb 2 t.current_phase)
      × (t.global_active ≡ leb 3 t.current_phase)
unfolding tick_times
tick_times-phase zero m = ground (arith, tick-phase m)
tick_times-phase (suc n) m = ground (arith, tick_times-phase n (tick m), tick-phase m)
