-- ===== src/Contacts/Segments/Outcomes.antt =====
-- What the handlers of a segment do on every answer.
use nexra.Prelude.{
  ℕ, ◌+◌, ◌≡◌, refl, Bool, true, false, not, ◌&&◌, Option, none, some, List, [], ◌∷◌, ◌++◌,
  if◌then◌else◌, is_empty, map, arith, append_assoc, ◌==◌, is_some, one_if,
}
use nexra.Contacts.{Contact, Group}
use nexra.Contacts.Segments.{
  View, Call, create_contact, add_to_segment, add_bulk, fetch_members_of, fetch_members,
  handle_manual_add, import_from, no_action, is_tab, members_tab, set_active_tab,
}
use nexra.Contacts.Segments.Handlers.{confirm_import, import_segment}
use nexra.Wizard.{blank_contact}

two_more : (xs : List Call) (a b : Call) → (xs ++ a ∷ []) ++ b ∷ [] ≡ xs ++ a ∷ b ∷ []
two_more xs a b = append_assoc xs (a ∷ []) (b ∷ [])

three_more :
    (xs : List Call) (a b c : Call) → ((xs ++ a ∷ []) ++ b ∷ []) ++ c ∷ [] ≡ xs ++ a ∷ b ∷ c ∷ []
three_more xs a b c = rw (two_more xs a b) (append_assoc xs (a ∷ b ∷ []) (c ∷ []))

four_more :
    (xs : List Call) (a b c d : Call)
    → (((xs ++ a ∷ []) ++ b ∷ []) ++ c ∷ []) ++ d ∷ [] ≡ xs ++ a ∷ b ∷ c ∷ d ∷ []
four_more xs a b c d = rw (three_more xs a b c) (append_assoc xs (a ∷ b ∷ c ∷ []) (d ∷ []))

-- The requests of a return to the members: one, and another one from another tab.
abbrev pub refetched : View → List Call
refetched v =
    fetch_members_of v.segment
    ∷ (if is_tab v.active_tab members_tab then [] else fetch_members_of v.segment ∷ [])

-- Adding a contact by hand to a segment with an id, on every answer: the contact is created; it is
-- added once it has an id, and only then; the members are fetched anew (twice from another tab than
-- theirs), and the form is emptied, exactly when both requests succeed. So when only the second one
-- fails, the contact exists, and the form still holds it.
pub handle_manual_add-outcome :
    (created : Option ℕ) (added : Bool) (v : View)
    → (v.segment == 0) ≡ false
    → let w = handle_manual_add created added v in
      (w.calls
        ≡ v.calls
          ++ create_contact v.new_contact ∷ elim created [
            | none ↦ []
            | some id ↦ add_to_segment v.segment id ∷ (if added then refetched v else [])
          ])
      × (w.new_contact ≡ (if is_some created && added then blank_contact else v.new_contact))
      × (w.updates ≡ v.updates + one_if (is_some created && added))
      × (w.is_saving_manual ≡ false)
unfolding handle_manual_add set_active_tab fetch_members
handle_manual_add-outcome none added v h = ground arith
handle_manual_add-outcome (some id) true v h = ground (
  arith,
  h,
  three_more v.calls (create_contact v.new_contact) (add_to_segment v.segment id)
      (fetch_members_of v.segment),
  four_more v.calls (create_contact v.new_contact) (add_to_segment v.segment id)
      (fetch_members_of v.segment) (fetch_members_of v.segment),
)
handle_manual_add-outcome (some id) false v h =
    ground (arith, h, two_more v.calls (create_contact v.new_contact) (add_to_segment v.segment id))

-- Importing another segment whose contacts arrive: the dialog is closed exactly when there are
-- contacts and the bulk request succeeds, so an empty segment leaves it open; the bulk request
-- holds every contact of that segment, and the button is free in the end.
pub confirm_import-outcome :
    (source : Group) (cs : List Contact) (added : Bool) (v : View)
    → v.confirm_action ≡ import_from source
    → let w = confirm_import (some cs) added v in
      (w.confirm_action ≡ (if not (is_empty cs) && added then no_action else import_from source))
      × (w.calls
          ≡ v.calls
            ++ fetch_members_of source.id
              ∷ (if is_empty cs
                  then []
                  else add_bulk v.segment (map (λ c. c.id) cs)
                    ∷ (if added then refetched v else [])))
      × (w.is_bulk_adding ≡ false)
unfolding confirm_import import_segment set_active_tab fetch_members
confirm_import-outcome source [] added v h = ground (arith, h)
confirm_import-outcome source (c ∷ cs) true v h =
    let bulk = add_bulk v.segment (map (λ d. d.id) (c ∷ cs)) in
    ground (
      arith,
      h,
      three_more v.calls (fetch_members_of source.id) bulk (fetch_members_of v.segment),
      four_more v.calls (fetch_members_of source.id) bulk (fetch_members_of v.segment)
          (fetch_members_of v.segment),
    )
confirm_import-outcome source (c ∷ cs) false v h = rw h (
  refl,
  two_more v.calls (fetch_members_of source.id) (add_bulk v.segment (map (λ d. d.id) (c ∷ cs))),
  refl,
)
