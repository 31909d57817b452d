-- ===== src/Contacts/Directory/Listed.antt =====
-- What the two lists show.
use nexra.Prelude.{
  ◌≡◌, refl, Bool, false, some, List, [], ◌∷◌, Text, filter, arith, Bool-cases, inl, inr,
}
use nexra.Contacts.{Contact}
use nexra.Contacts.Dedupe.{seen_has, number_of, deduplicate}
use nexra.Contacts.Dedupe.Laws.{numbers, IsDistinct, deduplicate-IsDistinct}
use nexra.Contacts.Directory.{Directory, fetched, filtered_contacts, is_found}

-- A list that lost entries has no number it had not.
numbers-filter :
    (p : Contact → Bool) (cs : List Contact) (t : Text)
    → seen_has (numbers cs) t ≡ false
    → seen_has (numbers (filter p cs)) t ≡ false
unfolding seen_has
numbers-filter p [] t h = refl
numbers-filter p (c ∷ cs) t h = ground (arith, h, numbers-filter p cs t)

filter-IsDistinct :
    (p : Contact → Bool) (cs : List Contact) → IsDistinct cs → IsDistinct (filter p cs)
filter-IsDistinct p [] h = tt
filter-IsDistinct p (c ∷ cs) h = elim (Bool-cases (p c)) [
  | inl kept ↦ rw kept (numbers-filter p cs (number_of c) h.0, filter-IsDistinct p cs h.1)
  | inr dropped ↦ rw dropped (filter-IsDistinct p cs h.1)
]

-- With any search and `lower` for `toLowerCase`, no two contacts that the list shows after a fetch
-- have the same normalized number.
pub filtered_contacts-fetched :
    (lower : Text → Text) (items : List Contact) (p : Directory)
    → IsDistinct (filtered_contacts lower (fetched (some (some items)) p))
unfolding filtered_contacts fetched
filtered_contacts-fetched lower items p =
    filter-IsDistinct (is_found lower p.search_query) (deduplicate items)
      (deduplicate-IsDistinct items).0
