-- ===== src/Phone/Validity.antt =====
-- The validity test against the shape that it describes, and on normalized numbers.
use nexra.Prelude.{◌≤◌, ◌≡◌, ◌≢◌, ◌↔◌, true, [], ◌∷◌, Text, arith, All, all, length}
use nexra.Phone.{is_digit, is_valid_phone_number, normalize_phone_number, ghana}
use nexra.Phone.Form.{Subscriber, normalize_phone_number_spellings}

abbrev Digits : Text → Type 0
Digits = All (λ c. is_digit c ≡ true)

-- A plus and 2 to 15 digits, the first of them not 0.
abbrev pub International : Text → Type 0
International [] = ⊥
International (p ∷ []) = ⊥
International (p ∷ d ∷ ds) =
    (p ≡ b'+') × (d ≢ b'0') × Digits (d ∷ ds) × (1 ≤ length ds) × (length ds ≤ 14)

all-Digits : (ds : Text) → (all is_digit ds ≡ true) ↔ Digits ds
all-Digits [] = ground arith
all-Digits (d ∷ ds) = ground (arith, all-Digits ds)

-- The test accepts exactly a plus and 2 to 15 digits, the first of them not 0.
pub is_valid_phone_number_iff : (s : Text) → (is_valid_phone_number s ≡ true) ↔ International s
unfolding is_valid_phone_number
is_valid_phone_number_iff [] = ground arith
is_valid_phone_number_iff (p ∷ []) = ground arith
is_valid_phone_number_iff (p ∷ d ∷ ds) = ground (arith, all-Digits ds)

-- A subscriber number of at most 12 digits, without its trunk zero not starting with 0, written
-- with the trunk zero normalizes to a number that the test accepts.
pub is_valid-normalize :
    (s : Text)
    → Subscriber s
    → length s ≤ 12
    → is_valid_phone_number (normalize_phone_number (b'0' ∷ s) ghana) ≡ true
unfolding is_valid_phone_number is_digit
is_valid-normalize [] h l = absurd h
is_valid-normalize (d ∷ ds) h l =
    ground (arith, normalize_phone_number_spellings (d ∷ ds) h, all-Digits (d ∷ ds))
