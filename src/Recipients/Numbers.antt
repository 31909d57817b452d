-- ===== src/Recipients/Numbers.antt =====
-- The numbers of the contacts that the selector adds.
use nexra.Prelude.{
  ◌+◌, ◌≡◌, ◌≢◌, refl, false, not, Option, none, some, List, [], ◌∷◌, ◌++◌, Text, arith, All,
  All-append, is_empty, map, filter, take, drop, length, inl, inr, Bool-cases,
}
use nexra.Phone.{normalize_phone_number, ghana, clean}
use nexra.Phone.Form.{
  StartsPlus, EmptyOrPlus, Dialable, ghana-Dialable, normalize_phone_number-Form,
}
use nexra.Wizard.{RawContact}
use nexra.Recipients.{
  Selector, Picked, first_or_empty, process, handle_select_phone_contacts, manual_contact,
  handle_manual_add, remove_raw_contact,
}

-- A number with its plus: not empty.
abbrev pub HasNumber : RawContact → Type 0
HasNumber c = StartsPlus c.phone × Dialable c.phone

StartsPlus-of_EmptyOrPlus : (t : Text) → EmptyOrPlus t → is_empty t ≡ false → StartsPlus t
StartsPlus-of_EmptyOrPlus [] p h = absurd (ground arith)
StartsPlus-of_EmptyOrPlus (c ∷ t) p h = p

processed-HasNumber :
    (ps : List Picked) → All HasNumber (filter (λ c. not (is_empty c.phone)) (map process ps))
unfolding process
processed-HasNumber [] = tt
processed-HasNumber (p ∷ ps) =
    let phone = normalize_phone_number (first_or_empty p.tel) ghana in
    let form = normalize_phone_number-Form (first_or_empty p.tel) ghana refl ghana-Dialable in
    elim (Bool-cases (is_empty phone)) [
      | inl missing ↦ rw missing (processed-HasNumber ps)
      | inr given ↦
          rw given ((StartsPlus-of_EmptyOrPlus phone form.0 given, form.1), processed-HasNumber ps)
    ]

-- Picking contacts from the phone keeps this of every contact in the list: its number starts with a
-- plus and holds digits and pluses only.
pub handle_select_phone_contacts-HasNumber :
    (picked : Option (List Picked)) (s : Selector)
    → All HasNumber s.raw_contacts
    → All HasNumber (handle_select_phone_contacts picked s).raw_contacts
unfolding handle_select_phone_contacts
handle_select_phone_contacts-HasNumber none s h = h
handle_select_phone_contacts-HasNumber (some []) s h = h
handle_select_phone_contacts-HasNumber (some (p ∷ ps)) s h =
    elim (Bool-cases s.is_contact_picker_supported) [
      | inl can ↦ rw can (All-append HasNumber s.raw_contacts _ h (processed-HasNumber (p ∷ ps)))
      | inr cannot ↦ rw cannot h
    ]

-- A manual entry whose number field holds no digit and no plus is added all the same, with an empty
-- number.
pub handle_manual_add-empty :
    (s : Selector)
    → s.new_manual_contact.phone_number ≢ []
    → clean s.new_manual_contact.phone_number ≡ []
    → (c : RawContact) × ((handle_manual_add s).raw_contacts ≡ s.raw_contacts ++ c ∷ [])
      × (c.phone ≡ [])
unfolding handle_manual_add manual_contact
handle_manual_add-empty s given none_left =
    let form =
      normalize_phone_number-Form s.new_manual_contact.phone_number ghana refl ghana-Dialable in
    let nothing : normalize_phone_number s.new_manual_contact.phone_number ghana ≡ [] =
      form.2.1 none_left in
    (manual_contact s.new_manual_contact, ground arith, ground (arith, nothing))

splice-append :
    (before after : List RawContact) (x : RawContact)
    → let i = length before in
      take i (before ++ x ∷ after) ++ drop (i + 1) (before ++ x ∷ after) ≡ before ++ after
splice-append [] after x = ground arith
splice-append (b ∷ before) after x = ground (arith, splice-append before after x)

-- The button of an entry removes that entry and keeps those before it and after it in their order.
pub remove_raw_contact-append :
    (s : Selector) (before after : List RawContact) (x : RawContact)
    → s.raw_contacts ≡ before ++ x ∷ after
    → (remove_raw_contact (length before) s).raw_contacts ≡ before ++ after
unfolding remove_raw_contact
remove_raw_contact-append s before after x e = ground (arith, splice-append before after x)
