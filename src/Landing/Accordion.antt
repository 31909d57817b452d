-- ===== src/Landing/Accordion.antt =====
-- The FAQ, whose items open one at a time, and the cards of the channels with their buttons.
use nexra.Prelude.{
  ℕ, zero, suc, ◌≤◌, ◌≡◌, ◌≢◌, refl, Bool, true, false, not, none, some, List, [], ◌∷◌,
  if◌then◌else◌, get_elem?, set, map, ap, count, arith, get_elem?-set_self,
}

-- The click on the button of item `i`: every item loses the class "active", and the item gets it
-- back unless it had it.
abbrev close_all : List Bool → List Bool
close_all = map (λ active. false)

unfoldable pub click_faq : ℕ → List Bool → List Bool
click_faq i items = elim (get_elem? items i) [
  | none ↦ items
  | some is_active ↦ if is_active then close_all items else set (close_all items) i true
]

unfoldable pub click_each : List ℕ → List Bool → List Bool
click_each [] items = items
click_each (i ∷ is) items = click_each is (click_faq i items)

abbrev pub active_items : List Bool → ℕ
active_items = count (λ active. active)

close_all-none : (items : List Bool) → active_items (close_all items) ≡ 0
close_all-none [] = refl
close_all-none (b ∷ items) = omega (arith, close_all-none items)

set-one : (items : List Bool) (i : ℕ) → active_items (set (close_all items) i true) ≤ 1
set-one [] i = omega arith
set-one (b ∷ items) zero = omega (arith, close_all-none items)
set-one (b ∷ items) (suc i) = omega (arith, set-one items i)

get_elem?-close_all :
    (items : List Bool) (i : ℕ) {b : Bool}
    → get_elem? items i ≡ some b
    → get_elem? (close_all items) i ≡ some false
get_elem?-close_all [] i h = absurd (ground arith)
get_elem?-close_all (c ∷ items) zero h = refl
get_elem?-close_all (c ∷ items) (suc i) h = get_elem?-close_all items i h

click_faq-one :
    (i : ℕ) (items : List Bool) → active_items items ≤ 1 → active_items (click_faq i items) ≤ 1
unfolding click_faq
click_faq-one i items h = ground (arith, close_all-none items, set-one items i)

click_faq-flips :
    (i : ℕ) (items : List Bool) (b : Bool)
    → get_elem? items i ≡ some b
    → get_elem? (click_faq i items) i ≡ some (not b)
unfolding click_faq
click_faq-flips i items true h = rw (h, click_faq) (get_elem?-close_all items i h)
click_faq-flips i items false h =
    rw (h, click_faq) (get_elem?-set_self (close_all items) i true (get_elem?-close_all items i h))

click_each-le :
    (is : List ℕ) (items : List Bool)
    → active_items items ≤ 1
    → active_items (click_each is items) ≤ 1
unfolding click_each
click_each-le [] items h = h
click_each-le (i ∷ is) items h = click_each-le is (click_faq i items) (click_faq-one i items h)

-- However often the questions are clicked, at most one is open, when at most one was; and a click
-- on a question `i` that is there opens it exactly when it was closed.
pub click_each-one :
    (is : List ℕ) (items : List Bool) (i : ℕ) (b : Bool)
    → active_items items ≤ 1
    → get_elem? (click_each is items) i ≡ some b
    → (active_items (click_faq i (click_each is items)) ≤ 1)
      × (get_elem? (click_faq i (click_each is items)) i ≡ some (not b))
click_each-one is items i b h k = (
  click_faq-one i (click_each is items) (click_each-le is items h),
  click_faq-flips i (click_each is items) b k,
)

-- A card of a channel: expanded or not, and whether its button reads "Show Less".
pub record Card : Type 0 where
  pub expanded : Bool
  pub shows_less : Bool

abbrev collapse : Card → Card
collapse c = record c { expanded = false }

-- The other cards lose the class "expanded"; the text of their buttons is left alone.
pub collapse_others : ℕ → List Card → List Card
collapse_others i [] = []
collapse_others zero (c ∷ cs) = c ∷ map collapse cs
collapse_others (suc i) (c ∷ cs) = collapse c ∷ collapse_others i cs

-- `toggleCard(button)` for the button of card `i`.
pub toggle_card : ℕ → List Card → List Card
unfolding collapse_others
toggle_card i cs = elim (get_elem? cs i) [
  | none ↦ cs
  | some c ↦
      let others = collapse_others i cs in
      if c.expanded
      then set others i (record { expanded = false; shows_less = false })
      else set others i (record { expanded = true; shows_less = true })
]

abbrev pub expanded_cards : List Card → ℕ
expanded_cards = count (λ c. c.expanded)

collapse-none : (cs : List Card) → expanded_cards (map collapse cs) ≡ 0
collapse-none [] = refl
collapse-none (c ∷ cs) = omega (arith, collapse-none cs)

get_elem?-collapse :
    (cs : List Card) (j : ℕ) {c : Card}
    → get_elem? cs j ≡ some c
    → get_elem? (map collapse cs) j ≡ some (collapse c)
get_elem?-collapse [] j h = absurd (ground arith)
get_elem?-collapse (d ∷ cs) zero h = ground (arith, h)
get_elem?-collapse (d ∷ cs) (suc j) h = get_elem?-collapse cs j h

set-collapse_others-one :
    (i : ℕ) (cs : List Card) (c : Card) → expanded_cards (set (collapse_others i cs) i c) ≤ 1
unfolding collapse_others
set-collapse_others-one i [] c = omega arith
set-collapse_others-one zero (d ∷ cs) c = ground (arith, collapse-none cs)
set-collapse_others-one (suc i) (d ∷ cs) c = ground (arith, set-collapse_others-one i cs c)

get_elem?-set-collapse_others :
    (i j : ℕ) (cs : List Card) (c : Card) {d : Card}
    → i ≢ j
    → get_elem? cs j ≡ some d
    → get_elem? (set (collapse_others i cs) i c) j ≡ some (collapse d)
unfolding collapse_others
get_elem?-set-collapse_others i j [] c n h = absurd (ground arith)
get_elem?-set-collapse_others zero zero (e ∷ cs) c n h = absurd (n refl)
get_elem?-set-collapse_others zero (suc j) (e ∷ cs) c n h = get_elem?-collapse cs j h
get_elem?-set-collapse_others (suc i) zero (e ∷ cs) c n h = ground (arith, h)
get_elem?-set-collapse_others (suc i) (suc j) (e ∷ cs) c n h =
    get_elem?-set-collapse_others i j cs c (λ p. n (ap suc p)) h

-- A click on the button of a card `i` that is there leaves at most one card expanded, and every
-- other card `j` collapsed with the text its button had: one that read "Show Less" still does.
pub toggle_card-others :
    (i j : ℕ) (cs : List Card) (c d : Card)
    → i ≢ j
    → get_elem? cs i ≡ some c
    → get_elem? cs j ≡ some d
    → (expanded_cards (toggle_card i cs) ≤ 1)
      × (get_elem? (toggle_card i cs) j
          ≡ some (record { expanded = false; shows_less = d.shows_less }))
unfolding toggle_card
toggle_card-others i j cs c d n h k = ground (
  arith,
  h,
  set-collapse_others-one i cs (record { expanded = true; shows_less = true }),
  set-collapse_others-one i cs (record { expanded = false; shows_less = false }),
  get_elem?-set-collapse_others i j cs (record { expanded = true; shows_less = true }) n k,
  get_elem?-set-collapse_others i j cs (record { expanded = false; shows_less = false }) n k,
)
