-- ===== src/Wizard/Preview/Laws.antt =====
-- The previews against the checkout and against the recipients.
use nexra.Prelude.{
  ℕ, ◌≡◌, ◌⊎◌, inl, inr, refl, true, some, List, [], ◌∷◌, ◌++◌, Text, codes, trim, split, join,
  split_on, arith, ◌==◌, append_assoc, append-nil, Bool-cases, sym, ◌↔◌, ◌<◌, ◌≤◌,
}
use nexra.Checkout.{sms_parts}
use nexra.Wizard.{RawContact}
use nexra.Wizard.Preview.{message_badge, preview_of_raw}

-- A split has a first part.
split_on-cons : (cur s : Text) → (h : Text) × (t : List Text) × (split_on b' ' cur s ≡ h ∷ t)
unfolding split_on
split_on-cons cur [] = (cur, [], refl)
split_on-cons cur (c ∷ s) = elim (Bool-cases (c == b' ')) [
  | inl e ↦ (cur, split_on b' ' [] s, rw (e, split_on))
  | inr e ↦ rw (e, split_on) (split_on-cons (cur ++ c ∷ []) s)
]

join-split_on : (cur s : Text) → join (codes " ") (split_on b' ' cur s) ≡ cur ++ s
unfolding split_on
join-split_on cur [] = sym (append-nil cur)
join-split_on cur (c ∷ s) = elim (Bool-cases (c == b' ')) [
  | inl e ↦ let (h, t, parts) = split_on-cons [] s in ground (arith, parts, e, join-split_on [] s)
  | inr e ↦ ground (arith, e, join-split_on (cur ++ c ∷ []) s, append_assoc cur (c ∷ []) s)
]

-- The words of a name and the name are each other's inverse.
abbrev IsName : Text → List Text → Type 0
IsName t [] = ⊥
IsName t (first ∷ []) = t ≡ first
IsName t (first ∷ second ∷ rest) = t ≡ first ++ (b' ' ∷ join (codes " ") (second ∷ rest))

split-IsName : (t : Text) → IsName t (split b' ' t)
split-IsName t = let (h, u, parts) = split_on-cons [] t in go h u parts (join-split_on [] t)
  where
    go :
        (h : Text) (u : List Text)
        → split b' ' t ≡ h ∷ u
        → join (codes " ") (split b' ' t) ≡ t
        → IsName t (split b' ' t)
    go h [] e j = rw e (sym (rw e at j))
    go h (v ∷ u) e j = rw e (sym (rw e at j))

-- The name of a contact from the phone, with the space around it trimmed, is the preview's first
-- name, or its first and last name with one space between.
pub preview_of_raw-name :
    (rc : RawContact)
    → (f : Text) × (l : Text) × ((preview_of_raw rc).first_name ≡ some f)
      × ((preview_of_raw rc).last_name ≡ some l)
      × (((trim rc.name ≡ f) × (l ≡ [])) ⊎ (trim rc.name ≡ f ++ (b' ' ∷ l)))
unfolding preview_of_raw
preview_of_raw-name rc = go (split b' ' (trim rc.name)) refl (split-IsName (trim rc.name))
  where
    go :
        (ws : List Text)
        → split b' ' (trim rc.name) ≡ ws
        → IsName (trim rc.name) ws
        → (f : Text) × (l : Text) × ((preview_of_raw rc).first_name ≡ some f)
          × ((preview_of_raw rc).last_name ≡ some l)
          × (((trim rc.name ≡ f) × (l ≡ [])) ⊎ (trim rc.name ≡ f ++ (b' ' ∷ l)))
    go [] e n = absurd n
    go (first ∷ []) e n = (first, [], ground (arith, e), ground (arith, e), inl (n, refl))
    go (first ∷ second ∷ rest) e n =
        (first, join (codes " ") (second ∷ rest), ground (arith, e), ground (arith, e), inr n)

-- The badge under the editor announces the parts that the checkout charges for, and warns of
-- several parts exactly when the text has more than 160 and at most 612 characters.
pub message_badge-sms_parts :
    (len : ℕ)
    → ((message_badge len).parts ≡ sms_parts len)
      × (((message_badge len).is_multi ≡ true) ↔ ((160 < len) × (len ≤ 612)))
unfolding message_badge sms_parts
message_badge-sms_parts len = (refl, ground arith)
