-- ===== src/Wizard/Submit/Outcome.antt =====
-- What saving and broadcasting do on every answer.
use nexra.Prelude.{
  ℕ, ◌+◌, ◌≡◌, refl, Bool, true, false, Option, none, some, List, [], ◌∷◌, ◌++◌, if◌then◌else◌,
  length, arith, count, count-append, append_assoc,
}
use nexra.Wizard.{
  no_items, Call, create_campaign, update_campaign, broadcast, Wizard, Detail, Answer, ok, failed,
}
use nexra.Wizard.Submit.{
  payload, handle_submit, total_recipients, summary_recipients, handle_broadcast_click,
  close_checkout, report_failure,
}

-- The saving request: creating, or updating the campaign that is edited.
abbrev pub saving : Wizard → Call
saving w = elim w.edit_id [
  | none ↦ create_campaign (payload w)
  | some edit_id ↦ update_campaign edit_id (payload w)
]

abbrev pub campaign_id : Wizard → ℕ → ℕ
campaign_id w id = elim w.edit_id [ none ↦ id | some edit_id ↦ edit_id ]

-- The requests of a successful submission: it saves, and broadcasts if asked to.
abbrev pub requests : Wizard → Bool → ℕ → List Call
requests w should_broadcast id =
    saving w ∷ (if should_broadcast then broadcast (campaign_id w id) ∷ [] else [])

-- When every request succeeds, a submission sends exactly the saving request (creating, or updating
-- the campaign that is edited) and, if asked to, the broadcast; it returns the campaign's identity,
-- ends the loading state, keeps the draft, and clears the session exactly when it leaves the page.
pub handle_submit_ok :
    (should_broadcast redirect : Bool) (id : ℕ) (w : Wizard)
    → let r = handle_submit should_broadcast redirect (ok id) (ok tt) w in
      (r.0.calls ≡ w.calls ++ requests w should_broadcast id)
      × (r.1 ≡ some (campaign_id w id))
      × (r.0.loading ≡ false)
      × (r.0.saved ≡ (if redirect then no_items else w.saved))
      × (r.0.left ≡ (if redirect then true else w.left))
      × (r.0.draft ≡ w.draft)
unfolding handle_submit
handle_submit_ok true redirect id w =
    ground (arith, append_assoc w.calls (saving w ∷ []) (broadcast (campaign_id w id) ∷ []))
handle_submit_ok false redirect id w = ground arith

-- When the saving request fails, nothing else is sent, nothing is returned, the session and the
-- draft stay, the page is not left and the loading state ends.
pub handle_submit_failed :
    (should_broadcast redirect : Bool) (detail : Option Detail) (sent : Answer (Unit {0}))
    (w : Wizard)
    → let r = handle_submit should_broadcast redirect (failed detail) sent w in
      (r.0.calls ≡ w.calls ++ saving w ∷ [])
      × (r.1 ≡ none)
      × (r.0.loading ≡ false)
      × (r.0.saved ≡ w.saved)
      × (r.0.left ≡ w.left)
      × (r.0.draft ≡ w.draft)
unfolding handle_submit report_failure
handle_submit_failed should_broadcast redirect detail sent w = ground arith

abbrev is_create : Call → Bool
is_create (create_campaign p) = true
is_create _ = false

abbrev pub creates : Wizard → ℕ
creates w = count is_create w.calls

-- "Broadcast Now" and then "Cancel", once for each identity that the server answers with.
abbrev pub cancelled : List ℕ → Wizard → Wizard
cancelled [] w = w
cancelled (id ∷ ids) w = cancelled ids (close_checkout (handle_broadcast_click (ok id) w))

click_creates :
    (id : ℕ) (w : Wizard)
    → w.edit_id ≡ none
    → let v = close_checkout (handle_broadcast_click (ok id) w) in
      (v.edit_id ≡ none) × (creates v ≡ creates w + 1)
unfolding close_checkout handle_broadcast_click
click_creates id w e =
    ground (arith, count-append is_create w.calls (create_campaign (payload w) ∷ []))

-- Outside of the edit mode, each click on "Broadcast Now" that is cancelled at the checkout leaves
-- one more campaign behind: every click sends a new creating request.
pub creates_after_cancel :
    (ids : List ℕ) (w : Wizard)
    → w.edit_id ≡ none
    → creates (cancelled ids w) ≡ creates w + length ids
creates_after_cancel [] w e = omega arith
creates_after_cancel (id ∷ ids) w e =
    let v = close_checkout (handle_broadcast_click (ok id) w) in
    let (kept, more) = click_creates id w e in omega (arith, creates_after_cancel ids v kept, more)

-- The checkout counts the contacts from the phone; the summary of the last step leaves them out.
pub total_recipients-summary :
    (w : Wizard) → total_recipients w ≡ summary_recipients w + length w.raw_contacts
unfolding total_recipients summary_recipients
total_recipients-summary w = refl
