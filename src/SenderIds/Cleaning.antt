-- ===== src/SenderIds/Cleaning.antt =====
-- What the cleaning of a sender ID and the preview of a use case leave.
use nexra.Prelude.{
  ℕ, suc, zero, ◌≤◌, ◌≡◌, refl, Bool, true, not, [], ◌∷◌, Text, trim, is_space, arith, all, filter,
  length, take, ltb, Bool-cases, inl, inr, is_empty, length-append, trim-of_all,
}
use nexra.SenderIds.{is_id_unit, clean_id, use_case_preview}

-- A unit that is kept.
abbrev IsIdUnit : ℕ → Type 0
IsIdUnit c = is_id_unit c ≡ true

all-filter : (p : ℕ → Bool) (s : Text) → all p (filter p s) ≡ true
all-filter p [] = refl
all-filter p (c ∷ s) = ground (arith, all-filter p s)

filter-of_all : (p : ℕ → Bool) (s : Text) → all p s ≡ true → filter p s ≡ s
filter-of_all p [] h = refl
filter-of_all p (c ∷ s) h = ground (arith, filter-of_all p s)

all-not_space : (s : Text) → all is_id_unit s ≡ true → all (λ c. not (is_space c)) s ≡ true
unfolding is_space
all-not_space [] h = refl
all-not_space (c ∷ s) h = ground (arith, h, all-not_space s)

-- When `toUpperCase` leaves texts of A to Z and 0 to 9 as they are, a cleaned sender ID is such a
-- text, and cleaning it again changes nothing.
pub clean_id-IdUnits :
    (upper : Text → Text) (s : Text)
    → ((t : Text) → all is_id_unit t ≡ true → upper t ≡ t)
    → (all is_id_unit (clean_id upper s) ≡ true)
      × (clean_id upper (clean_id upper s) ≡ clean_id upper s)
unfolding clean_id
clean_id-IdUnits upper s keeps =
    let clean = clean_id upper s in
    let units : all is_id_unit clean ≡ true = all-filter is_id_unit (upper (trim s)) in
    (
      units,
      rw (trim-of_all clean (all-not_space clean units), keeps clean units)
          (filter-of_all is_id_unit clean units),
    )

length-take : (n : ℕ) (s : Text) → length (take n s) ≤ n
length-take zero s = omega arith
length-take (suc n) [] = omega arith
length-take (suc n) (c ∷ s) = omega (arith, length-take n s)

-- A preview is not empty and has at most 91 units.
pub use_case_preview-bounds :
    (s : Text) → (1 ≤ length (use_case_preview s)) × (length (use_case_preview s) ≤ 91)
unfolding use_case_preview
use_case_preview-bounds s = elim (Bool-cases (is_empty (trim s))) [
  | inl none ↦ rw (none, use_case_preview) (ground arith)
  | inr given ↦
      rw (given, use_case_preview)
        (elim (Bool-cases (ltb 90 (length (trim s)))) [
          | inl long ↦
              rw (long, use_case_preview)
                (ground
                  (arith, length-append (take 90 (trim s)) (0x2026 ∷ []), length-take 90 (trim s)))
          | inr short ↦ rw (short, use_case_preview) (ground (arith, given, short))
        ])
]
