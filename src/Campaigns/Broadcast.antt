-- ===== src/Campaigns/Broadcast.antt =====
-- What confirming in the checkout sends.
use nexra.Prelude.{
  ◌≡◌, refl, ap, arith, ◌∙◌, Bool, true, false, none, List, [], ◌∷◌, ◌++◌, filter, filter-append,
  append-nil,
}
use nexra.Messages.{Campaign}
use nexra.Campaigns.{
  Call, list_campaigns, broadcast_with, Campaigns, Answer, ok, failed, handle_broadcast,
  confirm_broadcast, broadcast_answered, fetch_campaigns,
}

-- A click on a button that confirms, or an answer to a broadcast, in any order.
pub data Event : Type 0 where
  confirmed : Bool → Event
  answered : Answer → Event

unfoldable pub step : Event → Campaigns → Campaigns
step (confirmed use_payg) p = confirm_broadcast use_payg p
step (answered a) p = broadcast_answered a p

unfoldable pub run : List Event → Campaigns → Campaigns
run [] p = p
run (e ∷ es) p = run es (step e p)

abbrev pub is_broadcast : Call → Bool
is_broadcast (broadcast_with id use_payg) = true
is_broadcast _ = false

-- The requests to broadcast that went out, in order.
abbrev pub broadcasts : Campaigns → List Call
broadcasts p = filter is_broadcast p.calls

broadcast_answered-broadcasts :
    (a : Answer) (p : Campaigns) → broadcasts (broadcast_answered a p) ≡ broadcasts p
unfolding broadcast_answered fetch_campaigns
broadcast_answered-broadcasts ok p =
    filter-append is_broadcast p.calls (list_campaigns ∷ []) ∙ append-nil (broadcasts p)
broadcast_answered-broadcasts (failed detail) p = refl

broadcast_answered-checkout :
    (a : Answer) (p : Campaigns) → (broadcast_answered a p).checkout_campaign ≡ p.checkout_campaign
unfolding broadcast_answered fetch_campaigns
broadcast_answered-checkout ok p = refl
broadcast_answered-checkout (failed detail) p = refl

confirm_broadcast-closed :
    (use_payg : Bool) (p : Campaigns)
    → p.checkout_campaign ≡ none
    → confirm_broadcast use_payg p ≡ p
unfolding confirm_broadcast
confirm_broadcast-closed use_payg p closed = ground (arith, closed)

-- With the checkout closed, nothing is broadcast.
run-closed :
    (es : List Event) (p : Campaigns)
    → p.checkout_campaign ≡ none
    → broadcasts (run es p) ≡ broadcasts p
unfolding run step
run-closed [] p closed = refl
run-closed (confirmed use_payg ∷ es) p closed =
    ap (λ q. broadcasts (run es q)) (confirm_broadcast-closed use_payg p closed)
    ∙ run-closed es p closed
run-closed (answered a ∷ es) p closed =
    run-closed es (broadcast_answered a p) (broadcast_answered-checkout a p ∙ closed)
    ∙ broadcast_answered-broadcasts a p

-- When the checkout is opened for a campaign and confirmed, and then confirmed again any number of
-- times, before or after the answers come, exactly one request to broadcast goes out: the one for
-- that campaign, with the choice of the first confirmation.
pub run-confirm_broadcast :
    (c : Campaign) (first : Bool) (es : List Event) (p : Campaigns)
    → broadcasts (run es (confirm_broadcast first (handle_broadcast c p)))
      ≡ broadcasts p ++ broadcast_with c.id first ∷ []
unfolding confirm_broadcast handle_broadcast
run-confirm_broadcast c first es p =
    run-closed es (confirm_broadcast first (handle_broadcast c p)) refl
    ∙ filter-append is_broadcast p.calls (broadcast_with c.id first ∷ [])
