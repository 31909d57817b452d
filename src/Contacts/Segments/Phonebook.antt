-- ===== src/Contacts/Segments/Phonebook.antt =====
-- `handleSelectPhoneContacts` of `SegmentDetailView`: the contacts that the phone's picker returns
-- are created one after the other and added to the segment.
pub mod Imports
use nexra.Prelude.{
  ℕ, suc, ◌+◌, ◌≤◌, ◌≡◌, refl, String, Bool, true, false, not, ◌&&◌, ◌||◌, Option, none, some, List,
  [], ◌∷◌, ◌++◌, Text, codes, if◌then◌else◌, is_empty, filter, split, split_on, join, starts_with,
  length, all, ◌==◌, ltb, arith, All, drop, append-nil, append_assoc, ◌⊎◌, inl, inr,
}
use nexra.Phone.{is_digit}
use nexra.Toasts.{Variant, success, error}
use nexra.Wizard.{NewContact}
use nexra.Recipients.{Picked, first_or_empty}
use nexra.Contacts.Segments.{
  View, Call, create_contact, add_to_segment, fetch_all_contacts, notify, call, say, word, number,
}

abbrev head_or_empty : List Text → Text
head_or_empty [] = []
head_or_empty (t ∷ ts) = t

abbrev tail : List Text → List Text
tail [] = []
tail (t ∷ ts) = ts

abbrev or_unknown : Text → Text
or_unknown [] = codes "Unknown"
or_unknown (c ∷ s) = c ∷ s

abbrev pub name_parts : Picked → List Text
name_parts c = split b' ' (first_or_empty c.name)

-- The digits of a number, after a plus when it starts with one.
pub phone_of : Text → Text
unfolding is_digit
phone_of raw =
    if starts_with raw (codes "+") then b'+' ∷ filter is_digit raw else filter is_digit raw

pub new_contact_of : Picked → NewContact
unfolding split_on phone_of
new_contact_of c = record {
  first_name = or_unknown (head_or_empty (name_parts c));
  last_name = join (codes " ") (tail (name_parts c));
  phone_number = phone_of (first_or_empty c.tel);
}

-- The answers for one contact: the id it gets, and whether it joins the segment.
pub record Answers : Type 0 where
  pub created : Option ℕ
  pub added : Bool

-- One pass of the loop: the view, and how many contacts have been imported.
pub import_one : Picked → Answers → View × ℕ → View × ℕ
unfolding new_contact_of
import_one c a (v, count) =
    if is_empty (first_or_empty c.tel)
    then (v, count)
    else let sent = call (create_contact (new_contact_of c)) v in
      elim a.created [
        | none ↦ (sent, count)
        | some id ↦
            if v.segment == 0
            then (sent, count + 1)
            else (call (add_to_segment v.segment id) sent, if a.added then count + 1 else count)
      ]

-- The loop; every contact is given with the answers to its requests.
pub import_all : List (Picked × Answers) → View × ℕ → View × ℕ
unfolding import_one
import_all [] s = s
import_all ((c, a) ∷ cs) s = import_all cs (import_one c a s)

-- The whole handler; `none` is a picker that failed or was cancelled. The count is
-- returned beside the view.
pub handle_select_phone_contacts : Bool → Option (List (Picked × Answers)) → View → View × ℕ
unfolding import_all
handle_select_phone_contacts false selected v = (v, 0)
handle_select_phone_contacts true none v = (record v { is_importing_phonebook = false }, 0)
handle_select_phone_contacts true (some []) v = (record v { is_importing_phonebook = false }, 0)
handle_select_phone_contacts true (some (c ∷ cs)) v =
    let (w, count) = import_all (c ∷ cs) (v, 0) in
    if ltb 0 count
    then (
      record (call fetch_all_contacts (
          notify
            (word "Successfully imported " ∷ number count ∷ word " contact(s) from phonebook!" ∷ [])
            success w)) { is_importing_phonebook = false },
      count,
    )
    else (
      record (notify (say "No valid contacts could be imported.") error w) {
        is_importing_phonebook = false;
      },
      count,
    )
