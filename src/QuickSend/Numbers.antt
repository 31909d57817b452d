-- ===== src/QuickSend/Numbers.antt =====
-- The text of the recipients: what is picked is what is sent to.
use nexra.Prelude.{
  ◌≡◌, refl, ap, ◌∙◌, true, false, not, some, List, [], ◌∷◌, ◌++◌, Text, codes, is_empty, filter,
  map, any, trim, split_on, join, text_eq, includes, All, All-append, arith, trim_idem, trim-space,
  includes-trim, trim_of_NoSpace, split_on-append, split_on-whole, split_on-parts, is_space,
  Bool-cases, inl, inr,
}
use nexra.Phone.{is_dialable, is_digit}
use nexra.Recipients.{Picked, first_or_empty}
use nexra.QuickSend.{
  QuickSend, recipients, unique_from, unique, phones_of, handle_select_phone_contacts,
}

-- A recipient as the text of the recipients can hold it: not empty, trimmed, without a comma.
abbrev pub IsEntry : Text → Type 0
IsEntry t = (is_empty t ≡ false) × (trim t ≡ t) × (includes t b',' ≡ false)

trimmed-IsEntry :
    (ts : List Text)
    → All (λ t. includes t b',' ≡ false) ts
    → All IsEntry (filter (λ t. not (is_empty t)) (map trim ts))
trimmed-IsEntry [] h = tt
trimmed-IsEntry (t ∷ ts) h = elim (Bool-cases (is_empty (trim t))) [
  | inl e ↦ rw e (trimmed-IsEntry ts h.1)
  | inr e ↦ rw e ((e, trim_idem t, includes-trim t b',' h.0), trimmed-IsEntry ts h.1)
]

recipients-IsEntry : (t : Text) → All IsEntry (recipients t)
unfolding recipients
recipients-IsEntry t = trimmed-IsEntry (split_on b',' [] t) (split_on-parts b',' [] t refl)

dialable-NoSpace :
    (s : Text)
    → All (λ c. is_space c ≡ false) (filter is_dialable s)
      × (includes (filter is_dialable s) b',' ≡ false)
unfolding is_dialable is_digit is_space
dialable-NoSpace [] = (tt, refl)
dialable-NoSpace (c ∷ s) = ground (arith, dialable-NoSpace s)

phones_of-IsEntry : (cs : List Picked) → All IsEntry (phones_of cs)
unfolding phones_of
phones_of-IsEntry [] = tt
phones_of-IsEntry (c ∷ cs) =
    let phone = filter is_dialable (first_or_empty c.tel) in
    let form = dialable-NoSpace (first_or_empty c.tel) in
    elim (Bool-cases (is_empty phone)) [
      | inl e ↦ rw e (phones_of-IsEntry cs)
      | inr e ↦ rw e ((e, trim_of_NoSpace phone form.0, form.1), phones_of-IsEntry cs)
    ]

unique_from-IsEntry : (seen ts : List Text) → All IsEntry ts → All IsEntry (unique_from seen ts)
unique_from-IsEntry seen [] h = tt
unique_from-IsEntry seen (t ∷ ts) h = elim (Bool-cases (any (text_eq t) seen)) [
  | inl e ↦ rw (e, unique_from) (unique_from-IsEntry seen ts h.1)
  | inr e ↦ rw (e, unique_from) (h.0, unique_from-IsEntry (t ∷ seen) ts h.1)
]

split_on-join :
    (cur t : Text) (ts : List Text)
    → All IsEntry (t ∷ ts)
    → split_on b',' cur (join (codes ", ") (t ∷ ts)) ≡ (cur ++ t) ∷ map (λ u. b' ' ∷ u) ts
unfolding split_on
split_on-join cur t [] h = split_on-whole b',' cur t h.0.2
split_on-join cur t (u ∷ ts) h =
    split_on-append b',' cur t (b' ' ∷ join (codes ", ") (u ∷ ts)) h.0.2
    ∙ ap (λ x. (cur ++ t) ∷ x) (split_on-join (b' ' ∷ []) u ts h.1)

map-trim-space :
    (ts : List Text)
    → All IsEntry ts
    → filter (λ t. not (is_empty t)) (map trim (map (λ u. b' ' ∷ u) ts)) ≡ ts
map-trim-space [] h = refl
map-trim-space (t ∷ ts) h =
    rw (trim-space t, h.0.1, h.0.0) (ap (λ x. t ∷ x) (map-trim-space ts h.1))

recipients-join : (ts : List Text) → All IsEntry ts → recipients (join (codes ", ") ts) ≡ ts
unfolding recipients split_on
recipients-join [] h = refl
recipients-join (t ∷ ts) h =
    rw (split_on-join [] t ts h, h.0.1, h.0.0) (ap (λ x. t ∷ x) (map-trim-space ts h.1))

-- Picking contacts with at least one number, where the picker is supported: the text then names, in
-- order and each once, the recipients that it named before and the numbers that were picked.
pub handle_select_phone_contacts-recipients :
    (cs : List Picked) (q : QuickSend)
    → q.is_contact_picker_supported ≡ true
    → is_empty (phones_of cs) ≡ false
    → recipients (handle_select_phone_contacts (some cs) q).form.recipient
      ≡ unique (recipients q.form.recipient ++ phones_of cs)
unfolding handle_select_phone_contacts
handle_select_phone_contacts-recipients cs q h k =
    rw (h, k)
      (recipients-join (unique (recipients q.form.recipient ++ phones_of cs)) (
        unique_from-IsEntry [] (recipients q.form.recipient ++ phones_of cs) (
          All-append IsEntry (recipients q.form.recipient) (phones_of cs)
            (recipients-IsEntry q.form.recipient) (phones_of-IsEntry cs))))
