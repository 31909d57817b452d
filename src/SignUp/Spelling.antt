-- ===== src/SignUp/Spelling.antt =====
-- The number that the registration sends, and the numbers that messages are sent to.
use nexra.Prelude.{
  ℕ, ◌≡◌, refl, ◌∙◌, sym, ap, true, [], ◌∷◌, ◌++◌, Text, arith, length, filter, All, ltb,
}
use nexra.Phone.{normalize_phone_number, ghana, is_digit}
use nexra.Phone.Form.{Subscriber, normalize_phone_number_spellings}
use nexra.SignUp.{phone_input, without_zero, is_too_short}

without_zero-of_Subscriber : (s : Text) → Subscriber s → without_zero s ≡ s
without_zero-of_Subscriber [] h = absurd h
without_zero-of_Subscriber (d ∷ ds) h = ground (arith, h.0)

-- For a non-empty subscriber number of digits without the trunk zero, the number that the
-- registration reports for Ghana is the normalized form that messages are sent to, whether it is
-- typed with the trunk zero or without.
pub phone_input-normalize_phone_number :
    (s : Text)
    → Subscriber s
    → (phone_input ghana s ≡ normalize_phone_number s ghana)
      × (phone_input ghana (b'0' ∷ s) ≡ normalize_phone_number (b'0' ∷ s) ghana)
unfolding phone_input
phone_input-normalize_phone_number s h =
    let spelled = normalize_phone_number_spellings s h in
    (ap (λ t. ghana ++ t) (without_zero-of_Subscriber s h) ∙ sym spelled.1, sym spelled.0)

digits_of_All : (s : Text) → All (λ c. is_digit c ≡ true) s → filter is_digit s ≡ s
digits_of_All [] h = refl
digits_of_All (c ∷ s) h = ground (arith, h.0, digits_of_All s h.1)

-- For a non-empty subscriber number of Ghana, made of digits without the trunk zero, the
-- registration finds it too short exactly when it has less than four digits.
pub is_too_short-phone_input :
    (d : ℕ) (s : Text)
    → Subscriber (d ∷ s)
    → is_too_short (phone_input ghana (d ∷ s)) ≡ ltb (length (d ∷ s)) 4
unfolding is_too_short phone_input is_digit
is_too_short-phone_input d s h =
    rw (without_zero-of_Subscriber (d ∷ s) h, digits_of_All (d ∷ s) h.1) (ground arith)
