-- ===== src/Drawer/Paging.antt =====
-- The pages that the footer reaches, and the request that opening a campaign sends first.
use nexra.Prelude.{
  ℕ, ◌+◌, ◌*◌, ◌<◌, ◌≡◌, Bool, false, not, ◌&&◌, some, [], ◌∷◌, ◌++◌, ◌==◌, ltb, if◌then◌else◌,
  arith, ◌⊎◌, ◌-◌, min, inl, inr, Bool-cases, append_assoc,
}
use nexra.Drawer.{
  shows, Drawer, recipients_of, page_size, set_campaign, fetch_recipients, set_page, total_pages,
  has_footer, previous_page, next_page,
}

-- The page that is shown has rows, or it is the first.
abbrev pub InRange : Drawer → Type 0
InRange d = (d.page ≡ 0) ⊎ (d.page * page_size < d.total)

fetch_recipients-InRange :
    (silent : Bool) (d : Drawer) → InRange d → InRange (fetch_recipients silent d)
unfolding fetch_recipients
fetch_recipients-InRange silent d h = ground arith

set_page-InRange :
    (p : ℕ) (d : Drawer) → InRange d → (p ≡ 0) ⊎ (p * page_size < d.total) → InRange (set_page p d)
unfolding set_page
set_page-InRange p d h k = ground (arith, fetch_recipients-InRange false (record d { page = p }) k)

-- A page before the last one is followed by one whose first row exists.
total_pages-lt :
    (d : Drawer)
    → d.page + 1 < total_pages d
    → min (total_pages d - 1) (d.page + 1) * page_size < d.total
unfolding total_pages
total_pages-lt d h = omega arith

next-InRange : (d : Drawer) → InRange d → InRange (next_page d)
unfolding next_page
next-InRange d h = elim (Bool-cases (has_footer d && ltb (d.page + 1) (total_pages d))) [
  | inl e ↦ rw e (
      set_page-InRange (min (total_pages d - 1) (d.page + 1)) d h
        (inr (total_pages-lt d (ground arith))))
  | inr e ↦ rw e h
]

previous-InRange : (d : Drawer) → InRange d → InRange (previous_page d)
unfolding previous_page
previous-InRange d h = elim (Bool-cases (has_footer d && not (d.page == 0))) [
  | inl e ↦ rw e (set_page-InRange (d.page - 1) d h (ground arith))
  | inr e ↦ rw e h
]

-- Both buttons of the drawer's footer keep the page within the rows there are: when it is the first
-- page or one whose first row exists, it is so after a click on either button.
pub next_page-InRange : (d : Drawer) → InRange d → InRange (next_page d) × InRange (previous_page d)
next_page-InRange d h = (next-InRange d h, previous-InRange d h)

-- Opening a campaign that the drawer does not show sends, after the requests that were sent before,
-- one for the page that was shown of the last campaign and, only when that was not the first page,
-- one for the first; the page is then the first, the search empty and nothing selected.
pub set_campaign-requests :
    (c : ℕ) (d : Drawer)
    → shows d.campaign c ≡ false
    → ((set_campaign (some c) d).requests
        ≡ d.requests
          ++ recipients_of c (d.page * page_size) page_size
            ∷ (if d.page == 0 then [] else recipients_of c 0 page_size ∷ []))
      × ((set_campaign (some c) d).page ≡ 0)
      × ((set_campaign (some c) d).search ≡ [])
      × ((set_campaign (some c) d).selected ≡ [])
unfolding set_campaign fetch_recipients
set_campaign-requests c d = ground (
  arith,
  append_assoc d.requests (recipients_of c (d.page * page_size) page_size ∷ [])
      (recipients_of c 0 page_size ∷ []),
)
