-- ===== src/Messages/Paging.antt =====
-- The pages that the pagination controls reach, and the page after a deletion.
use nexra.Prelude.{
  ℕ, ◌+◌, ◌-◌, ◌*◌, ◌<◌, min, ◌≡◌, not, ◌&&◌, some, [], ◌∷◌, ◌++◌, ◌⊎◌, inl, inr, ◌==◌, ltb, arith,
  Bool-cases, append_assoc,
}
use nexra.Messages.{
  Messages, page_size, fetch_campaigns, render, set_page, total_pages, previous_page, next_page,
  pick_page, handle_delete_campaign, fetched, ok, delete_campaign, list_campaigns, params_of,
}

-- The page that is shown has rows, or it is the first.
abbrev pub InRange : Messages → Type 0
InRange m = (m.view.page ≡ 0) ⊎ (m.view.page * page_size < m.total)

set_page-InRange :
    (p : ℕ) (m : Messages) → (p ≡ 0) ⊎ (p * page_size < m.total) → InRange (set_page p m)
unfolding set_page render fetch_campaigns
set_page-InRange p m k = ground arith

total_pages-lt : (m : Messages) (p : ℕ) → p < total_pages m → p * page_size < m.total
unfolding total_pages
total_pages-lt m p h = omega arith

next-InRange : (m : Messages) → InRange m → InRange (next_page m)
unfolding next_page
next-InRange m h =
    elim (Bool-cases (ltb 1 (total_pages m) && ltb (m.view.page + 1) (total_pages m))) [
      | inl e ↦ rw e (
          set_page-InRange (min (total_pages m - 1) (m.view.page + 1)) m
            (inr (total_pages-lt m (min (total_pages m - 1) (m.view.page + 1)) (ground arith))))
      | inr e ↦ rw e h
    ]

previous-InRange : (m : Messages) → InRange m → InRange (previous_page m)
unfolding previous_page
previous-InRange m h = elim (Bool-cases (ltb 1 (total_pages m) && not (m.view.page == 0))) [
  | inl e ↦ rw e (set_page-InRange (m.view.page - 1) m (ground arith))
  | inr e ↦ rw e h
]

pick-InRange : (i : ℕ) (m : Messages) → InRange m → InRange (pick_page i m)
unfolding pick_page
pick-InRange i m h = elim (Bool-cases (ltb 1 (total_pages m) && ltb i (total_pages m))) [
  | inl e ↦ rw e (set_page-InRange i m (inr (total_pages-lt m i (ground arith))))
  | inr e ↦ rw e h
]

-- The three controls keep the page within the rows there are: when it is the first page or one
-- whose first row exists, it is so after a click on any of them.
pub next_page-pick_page-InRange :
    (i : ℕ) (m : Messages)
    → InRange m
    → InRange (next_page m) × InRange (previous_page m) × InRange (pick_page i m)
next_page-pick_page-InRange i m h = (next-InRange m h, previous-InRange m h, pick-InRange i m h)

-- Deleting a campaign does not move the page. When the dialog is open for a campaign and the
-- request succeeds, the next request is for the page that is shown; whatever page it is, an answer
-- with no rows whose total is where that page starts leaves an empty list on that page.
pub handle_delete_campaign-page :
    (id : ℕ) (m : Messages)
    → m.confirm_delete ≡ some id
    → let after =
        fetched
          (some (record { items = some []; total = some (m.view.page * page_size) }))
          (handle_delete_campaign ok m) in
      (after.requests ≡ m.requests ++ delete_campaign id ∷ list_campaigns (params_of m.view) ∷ [])
      × (after.campaigns ≡ [])
      × (after.view ≡ m.view)
      × (after.view.page * page_size ≡ after.total)
unfolding handle_delete_campaign fetched fetch_campaigns
handle_delete_campaign-page id m h = ground (
  arith,
  h,
  append_assoc m.requests (delete_campaign id ∷ []) (list_campaigns (params_of m.view) ∷ []),
)
