-- ===== src/SenderIds/Summary.antt =====
-- The counts over the list of sender IDs, and the list that a filter leaves.
use nexra.Prelude.{
  ℕ, ◌+◌, ◌≤◌, ◌≡◌, refl, Bool, true, false, List, [], ◌∷◌, Text, codes, text_eq, text_eq_iff,
  filter, length, arith, subst, sym, count, one_if,
}
use nexra.SenderIds.{Item, Badge, pending, status_meta, has_status, or_pending, status_count}

abbrev pub is_pending : Badge → Bool
is_pending pending = true
is_pending _ = false

abbrev pub wears_pending : (Text → Text) → Item → Bool
wears_pending lower item = is_pending (status_meta lower item.status)

module _ (lower : Text → Text) where
  abbrev ones : Text → List Item → ℕ
  ones key items = count (has_status lower key) items

  -- Of four marks an item has one.
  abbrev IsOnce : Item → Type 0
  IsOnce item =
      (one_if (has_status lower (codes "approved") item)
          + one_if (has_status lower (codes "need_verification") item)
          + one_if (has_status lower (codes "rejected") item)
          + one_if (wears_pending lower item)
        ≡ 1)
      × (one_if (has_status lower (codes "pending") item) ≤ one_if (wears_pending lower item))

  exclusive : (t u v : Text) → text_eq t u ≡ true → text_eq u v ≡ false → text_eq t v ≡ false
  exclusive t u v e h = subst (λ x. text_eq x v ≡ false) (sym ((text_eq_iff t u).0 e)) h

  item-IsOnce : (item : Item) → IsOnce item
  unfolding status_meta text_eq
  item-IsOnce item =
      let t = lower (or_pending item.status) in
      ground (
        arith,
        exclusive t (codes "approved") (codes "need_verification"),
        exclusive t (codes "approved") (codes "rejected"),
        exclusive t (codes "approved") (codes "pending"),
        exclusive t (codes "need_verification") (codes "rejected"),
        exclusive t (codes "need_verification") (codes "pending"),
        exclusive t (codes "rejected") (codes "pending"),
      )

  length-filter-count :
      (p : Item → Bool) (items : List Item) → length (filter p items) ≡ count p items
  length-filter-count p [] = refl
  length-filter-count p (item ∷ items) = ground (arith, length-filter-count p items)

  ones-length :
      (items : List Item)
      → (ones (codes "approved") items
            + ones (codes "need_verification") items
            + ones (codes "rejected") items
            + count (wears_pending lower) items
          ≡ length items)
        × (ones (codes "pending") items ≤ count (wears_pending lower) items)
  ones-length [] = (refl, omega arith)
  ones-length (item ∷ items) =
      let once = item-IsOnce item in
      let rest = ones-length items in (omega (arith, once.0, rest.0), omega (arith, once.1, rest.1))

  status_count-ones :
      (items : List Item) (key : Text)
      → text_eq key (codes "all") ≡ false
      → status_count lower items key ≡ ones key items
  unfolding status_count
  status_count-ones items key h = rw h (length-filter-count (has_status lower key) items)

status_count_all :
    (lower : Text → Text) (items : List Item)
    → status_count lower items (codes "all") ≡ length items
unfolding status_count text_eq
status_count_all lower items = refl

-- With `lower` for `toLowerCase`, the counts of approved, unverified and rejected sender IDs and
-- the number of items with the badge "Pending" add up to all items, and the count of pending ones
-- is at most the number of those badges.
pub status_count-badges :
    (lower : Text → Text) (items : List Item)
    → (status_count lower items (codes "approved")
          + status_count lower items (codes "need_verification")
          + status_count lower items (codes "rejected")
          + count (wears_pending lower) items
        ≡ status_count lower items (codes "all"))
      × (status_count lower items (codes "pending") ≤ count (wears_pending lower) items)
unfolding text_eq
status_count-badges lower items =
    rw
      (
        status_count-ones lower items (codes "approved") refl,
        status_count-ones lower items (codes "need_verification") refl,
        status_count-ones lower items (codes "rejected") refl,
        status_count-ones lower items (codes "pending") refl,
        status_count_all lower items,
      )
      (ones-length lower items)
