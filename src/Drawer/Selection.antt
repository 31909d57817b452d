-- ===== src/Drawer/Selection.antt =====
-- The box that selects the failed rows in view, and the requests for the selected ones.
use nexra.Prelude.{
  ℕ, suc, ◌≡◌, ◌≢◌, refl, Bool, true, false, not, ◌&&◌, ◌||◌, Option, none, some, List, [], ◌∷◌,
  ◌++◌, Text, ltb, if◌then◌else◌, all, includes, set_add, set_delete, includes-set_add,
  includes-set_delete, arith, length, Bool-cases, inl, inr, ◌*◌, is_some, append_assoc,
}
use nexra.Drawer.{
  Drawer, filtered, failed_ids, delete_each, add_each, toggle_select_all_failed,
  all_failed_selected, retry_selected, after_retry, Page, fetched, fetch_recipients, flash_success,
  retry_these, recipients_of, page_size,
}

includes-delete_each :
    (ids s : List ℕ) (a : ℕ)
    → includes (delete_each ids s) a ≡ (includes s a && not (includes ids a))
includes-delete_each [] s a = ground arith
includes-delete_each (id ∷ ids) s a =
    ground (arith, includes-delete_each ids (set_delete s id) a, includes-set_delete s id a)

includes-add_each :
    (ids s : List ℕ) (a : ℕ) → includes (add_each ids s) a ≡ (includes s a || includes ids a)
includes-add_each [] s a = ground arith
includes-add_each (id ∷ ids) s a =
    ground (arith, includes-add_each ids (set_add s id) a, includes-set_add s id a)

-- All of `ids` are in a set that has every one of them.
all-includes :
    (ids s : List ℕ)
    → ((a : ℕ) → includes ids a ≡ true → includes s a ≡ true)
    → all (includes s) ids ≡ true
all-includes [] s h = refl
all-includes (id ∷ ids) s h = ground (arith, h id, all-includes ids s (λ a k. h a (ground arith)))

all-add_each : (ids s : List ℕ) → all (includes (add_each ids s)) ids ≡ true
all-add_each ids s =
    all-includes ids (add_each ids s) (λ a k. ground (arith, includes-add_each ids s a, k))

all-delete_each : (ids s : List ℕ) → ids ≢ [] → all (includes (delete_each ids s)) ids ≡ false
all-delete_each [] s h = absurd (h refl)
all-delete_each (id ∷ ids) s h = ground (arith, includes-delete_each (id ∷ ids) s id)

pub includes-toggled :
    (ids s : List ℕ) (a : ℕ)
    → includes (if all (includes s) ids then delete_each ids s else add_each ids s) a
      ≡ (if includes ids a then not (all (includes s) ids) else includes s a)
includes-toggled ids s a = ground (arith, includes-delete_each ids s a, includes-add_each ids s a)

all-toggled :
    (ids s : List ℕ)
    → ids ≢ []
    → all (includes (if all (includes s) ids then delete_each ids s else add_each ids s)) ids
      ≡ not (all (includes s) ids)
all-toggled ids s h = elim (Bool-cases (all (includes s) ids)) [
  | inl e ↦ rw e (all-delete_each ids s h)
  | inr e ↦ rw e (all-add_each ids s)
]

ltb-suc : (n : ℕ) → ltb 0 (suc n) ≡ true
ltb-suc n = ground arith

box-toggled :
    (ids s : List ℕ)
    → (ltb 0 (length ids)
        && all (includes (if all (includes s) ids then delete_each ids s else add_each ids s)) ids)
      ≡ (ltb 0 (length ids) && not (ltb 0 (length ids) && all (includes s) ids))
box-toggled [] s = refl
box-toggled (id ∷ ids) s = rw (ltb-suc (length ids)) (all-toggled (id ∷ ids) s (ground arith))

-- A click on "Select All Failed" with `lower` for `toLowerCase`: afterwards a row that is failed
-- and in view is selected exactly when they were not all selected before, every other row is
-- selected exactly when it was, and the box is set exactly when there is a failed row in view and
-- it was not set.
pub toggle_select_all_failed-all :
    (lower : Text → Text) (d : Drawer) (a : ℕ)
    → (includes (toggle_select_all_failed lower d).selected a ≡ (
        if includes (failed_ids lower d) a
        then not (all (includes d.selected) (failed_ids lower d))
        else includes d.selected a))
      × (all_failed_selected lower (toggle_select_all_failed lower d)
          ≡ (ltb 0 (length (failed_ids lower d)) && not (all_failed_selected lower d)))
unfolding toggle_select_all_failed all_failed_selected failed_ids filtered
toggle_select_all_failed-all lower d a = (
  includes-toggled (failed_ids lower d) d.selected a,
  box-toggled (failed_ids lower d) d.selected,
)

-- Retrying the selected rows of a shown campaign, some being selected: one request goes out for
-- exactly them and the button is free again at the end on every answer. When the retry fails
-- nothing is fetched, no row flashes and the selection stays; when it succeeds those rows flash and
-- the page is fetched, which empties the selection if that works and keeps it if that fails.
pub retry_selected-outcome :
    (c id : ℕ) (ids : List ℕ) (d : Drawer) (posted : Bool) (answer : Option Page)
    → d.campaign ≡ some c
    → d.selected ≡ id ∷ ids
    → ((retry_selected posted answer d).retrying_selected ≡ false)
      × ((retry_selected posted answer d).requests
          ≡ d.requests
            ++ retry_these c (id ∷ ids)
              ∷ (if posted then recipients_of c (d.page * page_size) page_size ∷ [] else []))
      × ((retry_selected posted answer d).success_ids
          ≡ (if posted then id ∷ ids else d.success_ids))
      × ((retry_selected posted answer d).selected
          ≡ (if posted && is_some answer then [] else id ∷ ids))
unfolding retry_selected after_retry fetched fetch_recipients flash_success
retry_selected-outcome c id ids d false answer h k = ground (arith, h, k)
retry_selected-outcome c id ids d true none h k = ground (
  arith,
  h,
  k,
  append_assoc d.requests (retry_these c (id ∷ ids) ∷ [])
      (recipients_of c (d.page * page_size) page_size ∷ []),
)
retry_selected-outcome c id ids d true (some p) h k = ground (
  arith,
  h,
  k,
  append_assoc d.requests (retry_these c (id ∷ ids) ∷ [])
      (recipients_of c (d.page * page_size) page_size ∷ []),
)
