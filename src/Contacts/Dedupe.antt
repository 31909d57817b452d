-- ===== src/Contacts/Dedupe.antt =====
-- The loop of `fetchMembers` and of `GlobalContactsView.fetchContacts` that drops contacts whose
-- normalized number was seen before.
pub mod Laws
use nexra.Prelude.{
  ℕ, ◌≡◌, Bool, true, false, ◌||◌, List, [], ◌∷◌, ◌++◌, Text, text_eq, if◌then◌else◌,
}
use nexra.Phone.{normalize_phone_number, ghana}
use nexra.Contacts.{Contact}

-- `seenPhones.has(normalized)`
unfoldable pub seen_has : List Text → Text → Bool
unfolding text_eq
seen_has [] t = false
seen_has (s ∷ ss) t = text_eq s t || seen_has ss t

abbrev pub number_of : Contact → Text
number_of c = normalize_phone_number c.phone_number ghana

pub deduplicate_from : List Text → List Contact → List Contact
unfolding seen_has
deduplicate_from seen [] = []
deduplicate_from seen (c ∷ cs) = elim (seen_has seen (number_of c)) [
  | true ↦ deduplicate_from seen cs
  | false ↦ c ∷ deduplicate_from (number_of c ∷ seen) cs
]

pub deduplicate : List Contact → List Contact
unfolding deduplicate_from
deduplicate cs = deduplicate_from [] cs
