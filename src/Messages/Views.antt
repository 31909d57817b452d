-- ===== src/Messages/Views.antt =====
-- Which view the requests are sent with.
use nexra.Prelude.{
  ℕ, ◌≡◌, ◌≢◌, refl, ap, ◌∙◌, true, false, List, [], ◌∷◌, ◌++◌, Text, text_eq, text_eq_iff, ◌==◌,
  if◌then◌else◌, arith, append_assoc,
}
use nexra.Messages.{
  Messages, list_campaigns, params_of, fetch_campaigns, render, set_filter, set_page, type_search,
  search_due, realtime_update, handle_expand, fetch_campaign_stats,
}

text_ne : (s t : Text) → s ≢ t → text_eq s t ≡ false
text_ne s t h = ground (arith, text_eq_iff s t)

text_eq_refl : (t : Text) → text_eq t t ≡ true
text_eq_refl t = (text_eq_iff t t).1 refl

abbrev pub visit : List ℕ → Messages → Messages
visit [] m = m
visit (p ∷ ps) m = visit ps (set_page p m)

abbrev pub last_of : ℕ → List ℕ → ℕ
last_of q [] = q
last_of q (p ∷ ps) = last_of p ps

set_page-listener :
    (p : ℕ) (m : Messages) → ((set_page p m).listener ≡ m.listener) × ((set_page p m).view.page ≡ p)
unfolding set_page render fetch_campaigns
set_page-listener p m = ground arith

visit-listener :
    (ps : List ℕ) (m : Messages)
    → ((visit ps m).listener ≡ m.listener) × ((visit ps m).view.page ≡ last_of m.view.page ps)
visit-listener [] m = (refl, refl)
visit-listener (p ∷ ps) m =
    let later = visit-listener ps (set_page p m) in
    let moved = set_page-listener p m in
    (later.0 ∙ moved.0, later.1 ∙ ap (λ q. last_of q ps) moved.1)

handle_expand-listener :
    (id : ℕ) (m : Messages)
    → ((handle_expand id m).listener ≡ m.view) × ((handle_expand id m).view ≡ m.view)
unfolding handle_expand fetch_campaign_stats
handle_expand-listener id m = ground arith

realtime_update-requests :
    (m : Messages)
    → ((realtime_update false m).requests
        ≡ m.requests ++ list_campaigns (params_of m.listener) ∷ [])
      × ((realtime_update false m).view ≡ m.view)
unfolding realtime_update fetch_campaigns
realtime_update-requests m = ground arith

-- After a campaign was expanded or collapsed and the user has moved through any pages, a live
-- update without data sends one more request, for the page, the filter and the search that were
-- shown at the click, and the page that the user moved to last stays.
pub realtime_update-stale :
    (id : ℕ) (ps : List ℕ) (m : Messages)
    → let moved = visit ps (handle_expand id m) in
      ((realtime_update false moved).requests
        ≡ moved.requests ++ list_campaigns (params_of m.view) ∷ [])
      × ((realtime_update false moved).view.page ≡ last_of m.view.page ps)
realtime_update-stale id ps m =
    let clicked = handle_expand-listener id m in
    let kept = visit-listener ps (handle_expand id m) in
    let moved = visit ps (handle_expand id m) in
    let updated = realtime_update-requests moved in
    (
      updated.0
          ∙ ap (λ v. moved.requests ++ list_campaigns (params_of v) ∷ []) (kept.0 ∙ clicked.0),
      ap (λ v. v.page) updated.1 ∙ kept.1 ∙ ap (λ v. last_of v.page ps) clicked.1,
    )

-- When the user types a search and picks another filter before its timer fires, the pick fetches
-- the first page of the new filter, and the timer then sends the last request for the filter and
-- the page of the time of typing, while the new filter is shown.
pub search_due-stale :
    (term key : Text) (m : Messages)
    → key ≢ m.view.filter
    → ((search_due (set_filter key (type_search term m))).requests
        ≡ m.requests
          ++ list_campaigns (params_of (record { filter = key; term = term; page = 0 }))
            ∷ list_campaigns (params_of (record (m.view) { term = term }))
            ∷ [])
      × ((search_due (set_filter key (type_search term m))).view
          ≡ record { filter = key; term = term; page = 0 })
unfolding search_due set_filter type_search render fetch_campaigns
search_due-stale term key m h = ground (
  arith,
  text_ne key m.view.filter h,
  text_eq_refl key,
  append_assoc m.requests
      (list_campaigns (params_of (record { filter = key; term = term; page = 0 })) ∷ [])
      (list_campaigns (params_of (record (m.view) { term = term })) ∷ []),
)

-- Without another event between typing and the timer, the timer sends a request for the new text on
-- the page that was shown, and only when that was not the first page, one for the first page.
pub search_due-requests :
    (term : Text) (m : Messages)
    → ((search_due (type_search term m)).requests
        ≡ m.requests
          ++ list_campaigns (params_of (record (m.view) { term = term }))
            ∷ (if m.view.page == 0
                then []
                else list_campaigns (params_of (record (m.view) { term = term; page = 0 })) ∷ []))
      × ((search_due (type_search term m)).view ≡ record (m.view) { term = term; page = 0 })
unfolding search_due type_search render fetch_campaigns
search_due-requests term m = ground (
  arith,
  text_eq_refl m.view.filter,
  append_assoc m.requests (list_campaigns (params_of (record (m.view) { term = term })) ∷ [])
      (list_campaigns (params_of (record (m.view) { term = term; page = 0 })) ∷ []),
)
