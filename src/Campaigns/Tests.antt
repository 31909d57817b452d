-- ===== src/Campaigns/Tests.antt =====
-- A list of one campaign whose checkout is confirmed twice.
use nexra.Prelude.{◌≡◌, ◌++◌, true, false, none, List, [], ◌∷◌, codes}
use nexra.Messages.{Campaign}
use nexra.Campaigns.{Campaigns, ok, failed, broadcast_with, handle_broadcast, confirm_broadcast}
use nexra.Prelude.{◌⊎◌, some, get_elem?, is_some}
use nexra.Checkout
use nexra.Checkout.Reading.{buttons_of}
use nexra.Campaigns.Flow.{Screen, click, checkout_of, click-checkout_of}
use nexra.Campaigns.Broadcast.{Event, confirmed, answered, run, broadcasts, run-confirm_broadcast}

abbrev promo : Campaign
promo = record { id = 4; status = codes "draft" }

abbrev page : Campaigns
page = record {
  campaigns = promo ∷ [];
  loading = false;
  confirm_delete = none;
  is_deleting = false;
  checkout_campaign = none;
  calls = [];
  notices = [];
}

-- A double click before the answer: one request goes out.
abbrev later : List Event
later = confirmed true ∷ answered ok ∷ answered (failed none) ∷ []

run-confirm_broadcast_example :
    broadcasts (run later (confirm_broadcast false (handle_broadcast promo page)))
    ≡ [] ++ broadcast_with 4 false ∷ []
run-confirm_broadcast_example = run-confirm_broadcast promo false later page

-- The campaign of the list, with its numbers, in a checkout that still loads.
abbrev details : Campaign → Checkout.Campaign
details c = record { id = c.id; total_recipients = some 10; template_length = 20 }

abbrev loading_checkout : Checkout.Checkout
loading_checkout = record { balance = none; loading = true; error = none }

abbrev screen : Screen
screen = record {
  page = record page { checkout_campaign = some promo };
  checkout = loading_checkout;
  balance_checks = 1;
  left = false;
}

click-checkout_of_example :
    ((click (get_elem? (buttons_of (checkout_of details screen)) 0) screen).page.calls ≡ [])
    ⊎ (is_some screen.page.checkout_campaign ≡ true)
      × (loading_checkout.loading ≡ false)
      × (loading_checkout.error ≡ none)
      × (is_some loading_checkout.balance ≡ true)
click-checkout_of_example = click-checkout_of details 0 screen
