-- ===== src/Phone.antt =====
-- nexra-dashboard/src/utils/phoneUtils.js: phone numbers as lists of code units.
pub mod Form
pub mod Validity
mod Tests
use nexra.Prelude.{
  ℕ, ◌≡◌, Bool, true, false, ◌&&◌, ◌||◌, List, [], ◌∷◌, ◌++◌, Text, ltb, leb, ◌==◌, if◌then◌else◌,
  filter, starts_with, codes, drop, length, all,
}

-- `\d`.
unfoldable pub is_digit : ℕ → Bool
is_digit c = leb b'0' c && leb c b'9'

-- What `/[^\d+]/g` keeps.
unfoldable pub is_dialable : ℕ → Bool
unfolding is_digit
is_dialable c = is_digit c || c == b'+'

-- `defaultCountryCode = '+233'`.
abbrev pub ghana : Text
ghana = codes "+233"

abbrev pub clean : Text → Text
clean s = filter is_dialable s

-- The branches on the cleaned text.
pub qualify : Text → Text → Text
qualify code [] = []
qualify code (c ∷ s) =
    if c == b'+'
    then c ∷ s
    else if starts_with (c ∷ s) (codes "00")
    then b'+' ∷ drop 2 (c ∷ s)
    else if c == b'0'
    then code ++ s
    else code ++ c ∷ s

pub normalize_phone_number : Text → Text → Text
unfolding qualify is_dialable
normalize_phone_number phone code = qualify code (clean phone)

abbrev nonzero_digit : ℕ → Bool
nonzero_digit c = leb b'1' c && leb c b'9'

-- `/^\+[1-9]\d{1,14}$/`
pub is_valid_phone_number : Text → Bool
unfolding is_digit
is_valid_phone_number [] = false
is_valid_phone_number (p ∷ []) = false
is_valid_phone_number (p ∷ d ∷ ds) =
    p == b'+' && nonzero_digit d && all is_digit ds && leb 1 (length ds) && leb (length ds) 14
