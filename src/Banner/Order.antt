-- ===== src/Banner/Order.antt =====
-- The order of the announcements.
use mathlib.Core.List.Perm
use mathlib.Core.List.{Perm}
use nexra.Prelude.{
  ℕ, ◌+◌, ◌<◌, ◌≤◌, ◌⊎◌, ◌≡◌, true, false, List, [], ◌∷◌, Text, codes, text_eq, All, arith,
  Bool-cases, inl, inr, if◌then◌else◌,
}
use nexra.Banner.{
  Announcement, or_normal, priority_rank, not_after, insert, sort, Banner, undismissed,
  visible_announcements,
}

module _ (lower : Text → Text) where
  -- How urgent an announcement is: critical, high, normal and low, in this order, and a priority of
  -- another name is normal.
  pub place : Text → ℕ
  unfolding text_eq
  place t =
      if text_eq t (codes "critical")
      then 0
      else if text_eq t (codes "high")
      then 1
      else if text_eq t (codes "low")
      then 3
      else 2

  abbrev pub urgency : Announcement → ℕ
  urgency a = place (lower (or_normal a.priority))

  -- More urgent, or as urgent and not older.
  abbrev pub IsBefore : Announcement → Announcement → Type 0
  IsBefore a b = (urgency a < urgency b) ⊎ ((urgency a ≡ urgency b) × (b.created_at ≤ a.created_at))

  urgency-priority_rank : (a : Announcement) → urgency a + priority_rank lower a ≡ 4
  unfolding priority_rank place text_eq
  urgency-priority_rank a = ground arith

  -- Each comes before all that follow it.
  abbrev pub IsSorted : List Announcement → Type 0
  IsSorted [] = Unit
  IsSorted (a ∷ rest) = All (IsBefore a) rest × IsSorted rest

  not_after-IsBefore : (a b : Announcement) → not_after lower a b ≡ true → IsBefore a b
  unfolding not_after
  not_after-IsBefore a b h = ground (arith, h, urgency-priority_rank a, urgency-priority_rank b)

  not_after_total : (a b : Announcement) → not_after lower a b ≡ false → IsBefore b a
  unfolding not_after
  not_after_total a b h = ground (arith, h, urgency-priority_rank a, urgency-priority_rank b)

  IsBefore-trans : (a b c : Announcement) → IsBefore a b → IsBefore b c → IsBefore a c
  IsBefore-trans a b c h k = ground (arith, h, k)

  All-IsBefore :
      (a b : Announcement) (rest : List Announcement)
      → IsBefore a b
      → All (IsBefore b) rest
      → All (IsBefore a) rest
  All-IsBefore a b [] h k = tt
  All-IsBefore a b (c ∷ rest) h k = (IsBefore-trans a b c h k.0, All-IsBefore a b rest h k.1)

  All-insert :
      (P : Announcement → Type 0) (a : Announcement) (rest : List Announcement)
      → P a
      → All P rest
      → All P (insert lower a rest)
  All-insert P a [] h k = (h, tt)
  All-insert P a (b ∷ rest) h k = elim (Bool-cases (not_after lower a b)) [
    | inl e ↦ rw e (h, k)
    | inr e ↦ rw e (k.0, All-insert P a rest h k.1)
  ]

  insert-IsSorted :
      (a : Announcement) (rest : List Announcement) → IsSorted rest → IsSorted (insert lower a rest)
  insert-IsSorted a [] h = (tt, tt)
  insert-IsSorted a (b ∷ rest) h = elim (Bool-cases (not_after lower a b)) [
    | inl e ↦
        let first = not_after-IsBefore a b e in rw e ((first, All-IsBefore a b rest first h.0), h)
    | inr e ↦
        rw e
          (All-insert (IsBefore b) a rest (not_after_total a b e) h.0, insert-IsSorted a rest h.1)
  ]

  sort-IsSorted : (rest : List Announcement) → IsSorted (sort lower rest)
  sort-IsSorted [] = tt
  sort-IsSorted (a ∷ rest) = insert-IsSorted a (sort lower rest) (sort-IsSorted rest)

  pub All-sort :
      (P : Announcement → Type 0) (rest : List Announcement) → All P rest → All P (sort lower rest)
  All-sort P [] h = tt
  All-sort P (a ∷ rest) h = All-insert P a (sort lower rest) h.0 (All-sort P rest h.1)

  insert-Perm :
      (a : Announcement) (rest : List Announcement) → Perm (insert lower a rest) (a ∷ rest)
  insert-Perm a [] = Perm.refl (a ∷ [])
  insert-Perm a (b ∷ rest) = elim (Bool-cases (not_after lower a b)) [
    | inl e ↦ rw e (Perm.refl (a ∷ b ∷ rest))
    | inr e ↦ rw e (Perm.trans (Perm.cons b (insert-Perm a rest)) (Perm.swap a b rest))
  ]

  sort-Perm : (rest : List Announcement) → Perm (sort lower rest) rest
  sort-Perm [] = Perm.refl []
  sort-Perm (a ∷ rest) = Perm.trans (insert-Perm a (sort lower rest)) (Perm.cons a (sort-Perm rest))

-- With `lower` for `toLowerCase`, the visible announcements are the announcements that were not
-- dismissed, each as often, and each is more urgent than all that follow it, or as urgent and not
-- older.
pub visible_announcements-IsSorted :
    (lower : Text → Text) (p : Banner)
    → IsSorted lower (visible_announcements lower p)
      × Perm (visible_announcements lower p) (undismissed p)
unfolding visible_announcements
visible_announcements-IsSorted lower p =
    (sort-IsSorted lower (undismissed p), sort-Perm lower (undismissed p))
