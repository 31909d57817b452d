-- ===== src/Phone/Tests.antt =====
-- Phone numbers at concrete inputs.
use nexra.Prelude.{◌≡◌, ◌↔◌, refl, false, [], ◌∷◌, ◌++◌, Text, codes, arith}
use nexra.Phone.{is_valid_phone_number, normalize_phone_number, ghana, clean, is_dialable, is_digit}
use nexra.Phone.Form.{
  EmptyOrPlus, Dialable, normalize_phone_number-Form, normalize_phone_number_spellings,
}

abbrev spaced : Text
spaced = codes "024 123-4567"

normalize_run : normalize_phone_number spaced ghana ≡ codes "+233241234567"
unfolding normalize_phone_number
normalize_run = refl

-- An inner plus survives, and such a number is not valid.
inner_plus : is_valid_phone_number (normalize_phone_number (codes "024+1") ghana) ≡ false
unfolding normalize_phone_number is_valid_phone_number
inner_plus = refl

normalize_phone_number-Form_example :
    EmptyOrPlus (normalize_phone_number spaced ghana)
    × Dialable (normalize_phone_number spaced ghana)
    × ((normalize_phone_number spaced ghana ≡ []) ↔ (clean spaced ≡ []))
unfolding is_dialable
normalize_phone_number-Form_example =
    normalize_phone_number-Form spaced ghana refl (refl, (refl, (refl, (refl, tt))))

abbrev subscriber : Text
subscriber = codes "241234567"

normalize_phone_number_spellings_example :
    (normalize_phone_number (b'0' ∷ subscriber) ghana ≡ codes "+233" ++ subscriber)
    × (normalize_phone_number subscriber ghana ≡ codes "+233" ++ subscriber)
    × (normalize_phone_number (codes "00233" ++ subscriber) ghana ≡ codes "+233" ++ subscriber)
    × (normalize_phone_number (codes "+233" ++ subscriber) ghana ≡ codes "+233" ++ subscriber)
unfolding is_digit
normalize_phone_number_spellings_example = normalize_phone_number_spellings subscriber (
  (λ e. ground (arith, e)),
  (refl, (refl, (refl, (refl, (refl, (refl, (refl, (refl, (refl, tt))))))))),
)
