-- ===== src/Campaigns.antt =====
-- nexra-dashboard/src/pages/CampaignsPage.js: the list of campaigns. `calls` and `notices` log the
-- requests sent and the toasts shown; a handler takes the answers to its requests as arguments, and
-- the answer to the fetch that it ends with comes as an event of its own. Confirming a broadcast is
-- split at its `await`, so that more clicks can come before the answer.
pub mod Broadcast
pub mod Flow
mod Tests
use Prim.Native.String
use text.Mathlib.Text.{◌==◌ as str_eq}
use nexra.Prelude.{
  ℕ, String, Bool, true, false, Option, none, some, List, [], ◌∷◌, ◌++◌, if◌then◌else◌,
}
use nexra.Toasts.{Variant, success, error, info}
use nexra.Wizard.{Notice}
use nexra.Messages.{Campaign, has_active}

pub data Call : Type 0 where
  list_campaigns : Call
  retry_campaign : ℕ → Call
  broadcast_with : ℕ → Bool → Call
  delete_campaign : ℕ → Call

pub record Campaigns : Type 0 where
  pub campaigns : List Campaign
  pub loading : Bool
  pub confirm_delete : Option ℕ
  pub is_deleting : Bool
  pub checkout_campaign : Option Campaign
  pub calls : List Call
  pub notices : List Notice

abbrev pub notify : String → Variant → Campaigns → Campaigns
notify message variant p = record p {
  notices = p.notices ++ record { message = message; variant = variant } ∷ [];
}

abbrev pub call : Call → Campaigns → Campaigns
call c p = record p { calls = p.calls ++ c ∷ [] }

-- `fetchCampaigns` and its answer; a failure is only logged.
pub fetch_campaigns : Campaigns → Campaigns
fetch_campaigns p = call list_campaigns p

pub fetched : Option (List Campaign) → Campaigns → Campaigns
fetched none p = record p { loading = false }
fetched (some items) p = record p { campaigns = items; loading = false }

-- The timer of the automatic refresh, which is set while a campaign is on its way.
pub refresh_due : Campaigns → Campaigns
unfolding fetch_campaigns
refresh_due p = if has_active p.campaigns then fetch_campaigns p else p

-- `prefix + (error.response?.data?.detail || 'Unknown error')`
pub failure_text : String → Option String → String
failure_text start none = String.◌++◌ start "Unknown error"
failure_text start (some detail) =
    String.◌++◌ start (if str_eq detail "" then "Unknown error" else detail)

pub data Answer : Type 0 where
  ok : Answer
  failed : Option String → Answer

-- `handleBatchRetry`
pub handle_batch_retry : ℕ → Answer → Campaigns → Campaigns
unfolding fetch_campaigns failure_text
handle_batch_retry id ok p =
    fetch_campaigns
      (notify "All failed messages have been re-enqueued" success (call (retry_campaign id) p))
handle_batch_retry id (failed detail) p =
    notify (failure_text "Retry failed: " detail) error (call (retry_campaign id) p)

-- `handleBroadcast` opens the checkout.
pub handle_broadcast : Campaign → Campaigns → Campaigns
handle_broadcast c p = record p { checkout_campaign = some c }

-- `confirmBroadcast` up to its request: it closes the checkout first.
pub confirm_broadcast : Bool → Campaigns → Campaigns
confirm_broadcast use_payg p = elim p.checkout_campaign [
  | none ↦ p
  | some c ↦
      call (broadcast_with c.id use_payg)
        (notify "Starting broadcast..." info (record p { checkout_campaign = none }))
]

-- The rest of it, after the answer.
pub broadcast_answered : Answer → Campaigns → Campaigns
unfolding fetch_campaigns failure_text
broadcast_answered ok p = fetch_campaigns (notify "Broadcast started successfully!" success p)
broadcast_answered (failed detail) p = notify (failure_text "Broadcast failed: " detail) error p

pub ask_delete : ℕ → Campaigns → Campaigns
ask_delete id p = record p { confirm_delete = some id }

-- `handleDeleteCampaign`, for the campaign that the dialog holds.
pub handle_delete_campaign : Answer → Campaigns → Campaigns
unfolding fetch_campaigns failure_text
handle_delete_campaign answer p = elim p.confirm_delete [
  | none ↦ p
  | some id ↦ elim answer [
    | ok ↦
        fetch_campaigns (record (notify "Campaign deleted" success (call (delete_campaign id) p)) {
          confirm_delete = none;
          is_deleting = false;
        })
    | failed detail ↦
        record (notify (failure_text "Delete failed: " detail) error
          (call (delete_campaign id) p)) { is_deleting = false }
  ]
]
