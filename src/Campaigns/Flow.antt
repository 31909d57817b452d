-- ===== src/Campaigns/Flow.antt =====
-- nexra-dashboard/src/pages/CampaignsPage.js with the checkout that it opens
-- (nexra-dashboard/src/components/BroadcastCheckoutModal.js): from a click in the dialog to the
-- request.
use nexra.Prelude.{
  ℕ, zero, suc, ◌≡◌, ◌⊎◌, refl, ◌∙◌, Bool, true, false, Option, none, some, List, [], ◌∷◌,
  if◌then◌else◌, is_some, get_elem?, any, arith, Bool-cases, inl, inr,
}
use nexra.Messages.{Campaign}
use nexra.Checkout.{
  View, panel, failure, hidden, spinner, blank, Button, Action, close, retry_check, go_to_pricing,
  confirm, Checkout, checkout_modal, fetch_balance_start,
}
use nexra.Checkout
use nexra.Checkout.Reading.{can_send, confirms_with, buttons_of}
use nexra.Checkout.Modal.{can_send-needs, buttons_of-can_send}
use nexra.Campaigns.{Campaigns, confirm_broadcast}

-- `onClose`.
pub close_checkout : Campaigns → Campaigns
close_checkout p = record p { checkout_campaign = none }

-- The page with its checkout: the requests of both, and whether the pricing page was opened.
pub record Screen : Type 0 where
  pub page : Campaigns
  pub checkout : Checkout
  pub balance_checks : ℕ
  pub left : Bool

-- What an action of the dialog does: the page's callbacks, the dialog's own request for the balance,
-- and leaving for the wallet.
pub on_action : Action → Screen → Screen
unfolding close_checkout
on_action (confirm use_payg) w = record w { page = confirm_broadcast use_payg w.page }
on_action close w = record w { page = close_checkout w.page }
on_action retry_check w = record w {
  checkout = fetch_balance_start w.checkout;
  balance_checks = suc w.balance_checks;
}
on_action go_to_pricing w = record w { left = true }

-- A click on a button; a disabled one does nothing.
pub click : Option Button → Screen → Screen
unfolding on_action
click none w = w
click (some b) w = if b.enabled then on_action b.action w else w

-- The dialog over the page; `details` are the campaign's numbers, which the list holds as well.
pub checkout_of : (Campaign → Checkout.Campaign) → Screen → View
checkout_of details w =
    checkout_modal (is_some w.page.checkout_campaign)
      (elim w.page.checkout_campaign [ none ↦ none | some c ↦ some (details c) ]) w.checkout

on_action-calls :
    (enabled : Bool) (action : Action) (w : Screen)
    → (elim action [ confirm use_payg ↦ enabled | _ ↦ false ]) ≡ false
    → (if enabled then on_action action w else w).page.calls ≡ w.page.calls
unfolding on_action close_checkout
on_action-calls false action w h = refl
on_action-calls true (confirm use_payg) w h = absurd (ground arith)
on_action-calls true close w h = refl
on_action-calls true retry_check w h = refl
on_action-calls true go_to_pricing w h = refl

click-calls :
    (buttons : List Button) (i : ℕ) (w : Screen)
    → any confirms_with buttons ≡ false
    → (click (get_elem? buttons i) w).page.calls ≡ w.page.calls
unfolding click
click-calls [] i w h = refl
click-calls (b ∷ bs) zero w h = on_action-calls b.enabled b.action w (ground (arith, h))
click-calls (b ∷ bs) (suc i) w h = click-calls bs i w (ground (arith, h))

-- With any numbers of the campaigns, a click on any button of the checkout over the list of
-- campaigns sends no request of the page, to broadcast or other, unless a campaign is in the
-- checkout, the check of the balance has ended without an error and a balance is loaded.
pub click-checkout_of :
    (details : Campaign → Checkout.Campaign) (i : ℕ) (w : Screen)
    → ((click (get_elem? (buttons_of (checkout_of details w)) i) w).page.calls ≡ w.page.calls)
      ⊎ ((is_some w.page.checkout_campaign ≡ true)
          × (w.checkout.loading ≡ false)
          × (w.checkout.error ≡ none)
          × (is_some w.checkout.balance ≡ true))
unfolding checkout_of
click-checkout_of details i w =
    let there = is_some w.page.checkout_campaign in
    let c = elim w.page.checkout_campaign as (λ x. Option Checkout.Campaign) [
      | none ↦ none
      | some c ↦ some (details c)
    ] in
    let v = checkout_modal there c w.checkout in
    elim (Bool-cases (can_send v)) [
      | inr cannot ↦
          inl (click-calls (buttons_of v) i w (buttons_of-can_send there c w.checkout ∙ cannot))
      | inl can ↦
          let needs = can_send-needs there c w.checkout can in
          inr (needs.0, needs.2, needs.3, needs.4)
    ]
