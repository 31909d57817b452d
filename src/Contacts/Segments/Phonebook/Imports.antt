-- ===== src/Contacts/Segments/Phonebook/Imports.antt =====
-- What the import from the phone creates and counts.
use nexra.Prelude.{
  split_on-append, ℕ, ◌+◌, ◌≡◌, ◌≢◌, refl, Bool, true, false, not, ◌&&◌, none, some, List, [], ◌∷◌,
  ◌++◌, Text, if◌then◌else◌, is_empty, filter, split_on, join, ◌==◌, arith, All, append-nil,
  append_assoc, ◌⊎◌, inl, inr, is_some, one_if, Bool-cases, count, includes, Option-cases, ◌∙◌,
}
use nexra.Phone.{is_digit}
use nexra.Recipients.{Picked, first_or_empty}
use nexra.Contacts.Segments.{View, Call, create_contact, add_to_segment}
use nexra.Contacts.Segments.Phonebook.{phone_of, new_contact_of, Answers, import_one, import_all}

join-cons :
    (sep t : Text) (ts : List Text)
    → is_empty ts ≡ false
    → join sep (t ∷ ts) ≡ t ++ (sep ++ join sep ts)
join-cons sep t [] h = absurd (ground arith)
join-cons sep t (u ∷ ts) h = refl

-- Joining the parts of a split text gives it back.
join-split_on :
    (sep : ℕ) (cur s : Text)
    → (join (sep ∷ []) (split_on sep cur s) ≡ cur ++ s) × (is_empty (split_on sep cur s) ≡ false)
unfolding split_on
join-split_on sep cur [] = ground (arith, append-nil cur)
join-split_on sep cur (c ∷ s) = elim (Bool-cases (c == sep)) [
  | inl e ↦ ground (
    arith,
    e,
    join-cons (sep ∷ []) cur (split_on sep [] s) (join-split_on sep [] s).1,
    (join-split_on sep [] s).0,
  )
  | inr e ↦
      rw (e, split_on)
        (
          (join-split_on sep (cur ++ c ∷ []) s).0 ∙ append_assoc cur (c ∷ []) s,
          (join-split_on sep (cur ++ c ∷ []) s).1,
        )
]

-- A plus, or nothing, before digits.
abbrev Digits : Text → Type 0
Digits = All (λ c. is_digit c ≡ true)

abbrev pub IsPhone : Text → Type 0
IsPhone [] = Unit
IsPhone (c ∷ s) = ((c ≡ b'+') ⊎ (is_digit c ≡ true)) × Digits s

filter-Digits : (s : Text) → Digits (filter is_digit s)
filter-Digits [] = tt
filter-Digits (c ∷ s) = ground (arith, filter-Digits s)

IsPhone-of_Digits : (s : Text) → Digits s → IsPhone s
IsPhone-of_Digits [] h = tt
IsPhone-of_Digits (c ∷ s) h = (inr h.0, h.1)

phone_of-IsPhone : (raw : Text) → IsPhone (phone_of raw)
unfolding phone_of
phone_of-IsPhone raw =
    ground (arith, filter-Digits raw, IsPhone-of_Digits (filter is_digit raw) (filter-Digits raw))

-- One that has a number, gets an id, and joins the segment.
abbrev pub imported : Picked × Answers → Bool
imported (c, a) = not (is_empty (first_or_empty c.tel)) && is_some a.created && a.added

-- The requests for one contact in the segment `segment`.
abbrev pub calls_for : ℕ → Picked × Answers → List Call
calls_for segment (c, a) =
    if is_empty (first_or_empty c.tel)
    then []
    else create_contact (new_contact_of c)
      ∷ elim a.created [ none ↦ [] | some id ↦ add_to_segment segment id ∷ [] ]

abbrev pub all_calls : ℕ → List (Picked × Answers) → List Call
all_calls segment [] = []
all_calls segment (ca ∷ cs) = calls_for segment ca ++ all_calls segment cs

import_one-calls :
    (c : Picked) (a : Answers) (v : View) (n : ℕ)
    → (v.segment == 0) ≡ false
    → ((import_one c a (v, n)).0.segment ≡ v.segment)
      × ((import_one c a (v, n)).0.calls ≡ v.calls ++ calls_for v.segment (c, a))
      × ((import_one c a (v, n)).1 ≡ n + one_if (imported (c, a)))
unfolding import_one
import_one-calls c a v n h = elim (Option-cases a.created) [
  | inl e ↦ ground (arith, h, e, append-nil v.calls)
  | inr (id, e) ↦ ground (
    arith,
    h,
    e,
    append-nil v.calls,
    append_assoc v.calls (create_contact (new_contact_of c) ∷ [])
        (add_to_segment v.segment id ∷ []),
  )
]

-- Importing contacts from the phone into a segment with an id: each contact with a number is
-- created, each one that gets an id is added, in order; the failure of one does not stop the next;
-- and the count goes up by the number of those that have a number, an id and joined.
pub import_all-calls :
    (cs : List (Picked × Answers)) (v : View) (n : ℕ)
    → (v.segment == 0) ≡ false
    → ((import_all cs (v, n)).0.calls ≡ v.calls ++ all_calls v.segment cs)
      × ((import_all cs (v, n)).1 ≡ n + count imported cs)
unfolding import_all
import_all-calls [] v n h = ground (arith, append-nil v.calls)
import_all-calls ((c, a) ∷ cs) v n h = ground (
  arith,
  import_one-calls c a v n h,
  append_assoc v.calls (calls_for v.segment (c, a)) (all_calls v.segment cs),
  import_all-calls cs (import_one c a (v, n)).0 (import_one c a (v, n)).1,
)

-- The contact that is created for an entry of the phone: its number is digits, with a plus in front
-- or not; and when the entry's name is a non-empty word without a space, a space and a rest, they
-- are the first and the last name.
pub new_contact_of-name :
    (c : Picked) (first rest : Text)
    → first ≢ []
    → includes first b' ' ≡ false
    → first_or_empty c.name ≡ first ++ (b' ' ∷ rest)
    → IsPhone (new_contact_of c).phone_number
      × ((new_contact_of c).first_name ≡ first)
      × ((new_contact_of c).last_name ≡ rest)
unfolding new_contact_of
new_contact_of-name c [] rest h k e = absurd (h refl)
new_contact_of-name c (f ∷ first) rest h k e = ground (
  arith,
  k,
  e,
  phone_of-IsPhone (first_or_empty c.tel),
  split_on-append b' ' [] (f ∷ first) rest k,
  (join-split_on b' ' [] rest).0,
)
