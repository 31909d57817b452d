-- ===== src/Phone/Form.antt =====
-- The form of a normalized number, and normalizing again.
use nexra.Prelude.{
  ◌≡◌, ◌≢◌, ◌↔◌, refl, ◌∙◌, ap, true, [], ◌∷◌, ◌++◌, Text, arith, All, All-append, codes,
}
use nexra.Phone.{is_digit, is_dialable, clean, qualify, normalize_phone_number, ghana}

abbrev pub Dialable : Text → Type 0
Dialable = All (λ c. is_dialable c ≡ true)

abbrev pub StartsPlus : Text → Type 0
StartsPlus [] = ⊥
StartsPlus (c ∷ s) = c ≡ b'+'

clean-Dialable : (s : Text) → Dialable (clean s)
clean-Dialable [] = tt
clean-Dialable (c ∷ s) = ground (arith, clean-Dialable s)

clean_of_Dialable : (s : Text) → Dialable s → clean s ≡ s
clean_of_Dialable [] h = refl
clean_of_Dialable (c ∷ s) h = ground (arith, clean_of_Dialable s h.1)

abbrev pub EmptyOrPlus : Text → Type 0
EmptyOrPlus [] = Unit
EmptyOrPlus (c ∷ s) = c ≡ b'+'

append-Dialable : (s t : Text) → Dialable s → Dialable t → Dialable (s ++ t)
append-Dialable s t = All-append (λ c. is_dialable c ≡ true) s t

-- A qualified text is dialable and starts with a plus, if the cleaned text is not empty.
qualify-Form :
    (code s : Text)
    → StartsPlus code
    → Dialable code
    → Dialable s
    → EmptyOrPlus (qualify code s) × Dialable (qualify code s) × ((qualify code s ≡ []) ↔ (s ≡ []))
unfolding qualify is_dialable
qualify-Form code [] p d h = (tt, tt, ((λ e. refl), (λ e. refl)))
qualify-Form [] (c ∷ s) p d h = absurd p
qualify-Form (k ∷ code) (c ∷ []) p d h =
    ground (arith, append-Dialable code [] d.1 tt, append-Dialable code (c ∷ []) d.1 h)
qualify-Form (k ∷ code) (c ∷ b ∷ s) p d h =
    ground (arith, append-Dialable code (b ∷ s) d.1 h.1, append-Dialable code (c ∷ b ∷ s) d.1 h)

-- For a country code that starts with a plus and holds only digits and pluses, a normalized number
-- is empty exactly when the input has no digit and no plus; otherwise it starts with a plus, and it
-- holds digits and pluses only.
pub normalize_phone_number-Form :
    (phone code : Text)
    → StartsPlus code
    → Dialable code
    → EmptyOrPlus (normalize_phone_number phone code)
      × Dialable (normalize_phone_number phone code)
      × ((normalize_phone_number phone code ≡ []) ↔ (clean phone ≡ []))
unfolding normalize_phone_number
normalize_phone_number-Form phone code p d =
    qualify-Form code (clean phone) p d (clean-Dialable phone)

qualify_of_plus : (code s : Text) → EmptyOrPlus s → qualify code s ≡ s
unfolding qualify
qualify_of_plus code [] p = refl
qualify_of_plus code (c ∷ s) p = ground arith

pub ghana-Dialable : Dialable ghana
unfolding is_dialable is_digit
ghana-Dialable = (refl, (refl, (refl, (refl, tt))))

-- For a country code that starts with a plus and holds only digits and pluses, normalizing a second
-- time changes nothing.
pub normalize_phone_number_idem :
    (phone code : Text)
    → StartsPlus code
    → Dialable code
    → normalize_phone_number (normalize_phone_number phone code) code
      ≡ normalize_phone_number phone code
unfolding normalize_phone_number
normalize_phone_number_idem phone code p d =
    let form = qualify-Form code (clean phone) p d (clean-Dialable phone) in
    ap (qualify code) (clean_of_Dialable (qualify code (clean phone)) form.1)
    ∙ qualify_of_plus code (qualify code (clean phone)) form.0

-- A subscriber's digits without the trunk zero.
abbrev pub Subscriber : Text → Type 0
Subscriber [] = ⊥
Subscriber (d ∷ ds) = (d ≢ b'0') × All (λ c. is_digit c ≡ true) (d ∷ ds)

Digits-Dialable : (s : Text) → All (λ c. is_digit c ≡ true) s → Dialable s
unfolding is_dialable
Digits-Dialable [] h = tt
Digits-Dialable (c ∷ s) h = (ground arith, Digits-Dialable s h.1)

-- For a non-empty subscriber number of digits without the trunk zero, normalizing it with the trunk
-- zero, bare, after 00233 and after +233 gives the same text, +233 followed by the number.
pub normalize_phone_number_spellings :
    (s : Text)
    → Subscriber s
    → (normalize_phone_number (b'0' ∷ s) ghana ≡ codes "+233" ++ s)
      × (normalize_phone_number s ghana ≡ codes "+233" ++ s)
      × (normalize_phone_number (codes "00233" ++ s) ghana ≡ codes "+233" ++ s)
      × (normalize_phone_number (codes "+233" ++ s) ghana ≡ codes "+233" ++ s)
unfolding normalize_phone_number qualify is_dialable is_digit
normalize_phone_number_spellings [] h = absurd h
normalize_phone_number_spellings (d ∷ ds) (nonzero, digits) =
    let same : clean (d ∷ ds) ≡ d ∷ ds =
      clean_of_Dialable (d ∷ ds) (Digits-Dialable (d ∷ ds) digits) in
    (ground (arith, same), ground (arith, same), ground (arith, same), ground (arith, same))
