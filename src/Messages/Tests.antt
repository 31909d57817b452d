-- ===== src/Messages/Tests.antt =====
-- A history of 31 campaigns, on its last page, where one campaign is expanded.
use nexra.Prelude.{◌≡◌, false, none, some, [], ◌∷◌, ◌++◌, codes}
use nexra.Messages.{
  View, Messages, initial_view, params_of, list_campaigns, handle_expand, realtime_update,
}
use nexra.Messages.Views.{visit, realtime_update-stale}

abbrev shown : View
shown = record { filter = codes "all"; term = []; page = 3 }

abbrev history : Messages
history = record {
  view = shown;
  campaigns = record { id = 5; status = codes "completed" } ∷ [];
  loading = false;
  total = 31;
  expanded_id = none;
  campaign_stats = [];
  confirm_delete = some 5;
  delete_loading = false;
  timer = none;
  listener = initial_view;
  requests = [];
  notices = [];
}

realtime_update-stale_example :
    let moved = visit (0 ∷ 2 ∷ []) (handle_expand 5 history) in
    ((realtime_update false moved).requests
      ≡ moved.requests ++ list_campaigns (params_of shown) ∷ [])
    × ((realtime_update false moved).view.page ≡ 2)
realtime_update-stale_example = realtime_update-stale 5 (0 ∷ 2 ∷ []) history
