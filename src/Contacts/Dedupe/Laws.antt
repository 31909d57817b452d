-- ===== src/Contacts/Dedupe/Laws.antt =====
-- The deduplicated list against the list that was fetched.
use nexra.Prelude.{
  ◌≡◌, refl, true, false, ◌||◌, List, [], ◌∷◌, Text, text_eq, text_eq_iff, arith, map,
}
use nexra.Contacts.{Contact}
use nexra.Contacts.Dedupe.{seen_has, number_of, deduplicate_from, deduplicate}

abbrev pub numbers : List Contact → List Text
numbers = map number_of

-- No two contacts have the same number.
abbrev pub IsDistinct : List Contact → Type 0
IsDistinct [] = Unit
IsDistinct (c ∷ cs) = (seen_has (numbers cs) (number_of c) ≡ false) × IsDistinct cs

text_eq_refl : (t : Text) → text_eq t t ≡ true
text_eq_refl t = (text_eq_iff t t).1 refl

-- What was seen before is not in the result.
deduplicate_from-unseen :
    (seen : List Text) (cs : List Contact) (t : Text)
    → seen_has seen t ≡ true
    → seen_has (numbers (deduplicate_from seen cs)) t ≡ false
unfolding deduplicate_from seen_has
deduplicate_from-unseen seen [] t h = refl
deduplicate_from-unseen seen (c ∷ cs) t h = ground (
  arith,
  text_eq_iff (number_of c) t,
  deduplicate_from-unseen seen cs t h,
  deduplicate_from-unseen (number_of c ∷ seen) cs t,
)

deduplicate_from-IsDistinct :
    (seen : List Text) (cs : List Contact) → IsDistinct (deduplicate_from seen cs)
unfolding deduplicate_from seen_has
deduplicate_from-IsDistinct seen [] = tt
deduplicate_from-IsDistinct seen (c ∷ cs) = ground (
  arith,
  text_eq_refl (number_of c),
  deduplicate_from-IsDistinct seen cs,
  deduplicate_from-IsDistinct (number_of c ∷ seen) cs,
  deduplicate_from-unseen (number_of c ∷ seen) cs (number_of c),
)

deduplicate_from-numbers :
    (seen : List Text) (cs : List Contact) (t : Text)
    → (seen_has seen t || seen_has (numbers (deduplicate_from seen cs)) t)
      ≡ (seen_has seen t || seen_has (numbers cs) t)
unfolding deduplicate_from seen_has
deduplicate_from-numbers seen [] t = refl
deduplicate_from-numbers seen (c ∷ cs) t = ground (
  arith,
  text_eq_iff (number_of c) t,
  deduplicate_from-numbers seen cs t,
  deduplicate_from-numbers (number_of c ∷ seen) cs t,
)

-- No two contacts of the deduplicated list have the same normalized number, and a number occurs in
-- it exactly when it occurs in the list that was fetched.
pub deduplicate-IsDistinct :
    (cs : List Contact)
    → IsDistinct (deduplicate cs)
      × ((t : Text) → seen_has (numbers (deduplicate cs)) t ≡ seen_has (numbers cs) t)
unfolding deduplicate seen_has
deduplicate-IsDistinct cs =
    (deduplicate_from-IsDistinct [] cs, λ t. deduplicate_from-numbers [] cs t)

-- Apart from what was seen before.
abbrev IsApart : List Text → List Contact → Type 0
IsApart seen [] = Unit
IsApart seen (c ∷ cs) = (seen_has seen (number_of c) ≡ false) × IsApart seen cs

IsApart-cons :
    (seen : List Text) (t : Text) (cs : List Contact)
    → IsApart seen cs
    → seen_has (numbers cs) t ≡ false
    → IsApart (t ∷ seen) cs
unfolding seen_has
IsApart-cons seen t [] h k = tt
IsApart-cons seen t (c ∷ cs) h k =
    ground
      (arith, text_eq_iff (number_of c) t, text_eq_iff t (number_of c), IsApart-cons seen t cs h.1)

deduplicate_from_of_IsDistinct :
    (seen : List Text) (cs : List Contact)
    → IsDistinct cs
    → IsApart seen cs
    → deduplicate_from seen cs ≡ cs
unfolding deduplicate_from
deduplicate_from_of_IsDistinct seen [] d h = refl
deduplicate_from_of_IsDistinct seen (c ∷ cs) d h = ground (
  arith,
  IsApart-cons seen (number_of c) cs h.1 d.0,
  deduplicate_from_of_IsDistinct (number_of c ∷ seen) cs d.1,
)

-- A list of contacts with distinct numbers is shown as it was fetched.
pub deduplicate_of_IsDistinct : (cs : List Contact) → IsDistinct cs → deduplicate cs ≡ cs
unfolding deduplicate seen_has
deduplicate_of_IsDistinct cs d = deduplicate_from_of_IsDistinct [] cs d (apart cs)
  where
    apart : (ds : List Contact) → IsApart [] ds
    apart [] = tt
    apart (e ∷ ds) = (refl, apart ds)
