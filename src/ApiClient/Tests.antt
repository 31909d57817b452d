-- ===== src/ApiClient/Tests.antt =====
-- Two requests side by side, the first of which refreshes the session.
use nexra.Prelude.{◌≡◌, refl, true, false, none, some, List, [], ◌∷◌, get_elem?}
use nexra.ApiClient.{
  Storage, in_flight, refreshing, rejected, Job, Client, issue, on_error, Event, issued, failed,
  refreshed, step, run, start,
}
use mathlib.Core.WellFounded.{Acc}
use nexra.ApiClient.Progress.{After, Settles, After-Acc, client-Settles, total_turns}
use nexra.ApiClient.Refresh.{Inv, run-start-Inv, failed_during_refresh, refreshed_sends_again}

abbrev signed_in : Storage
signed_in = record { access_token = some 1; refresh_token = some 2 }

abbrev two_events : List Event
two_events = issued ∷ issued ∷ failed 0 (some 401) ∷ []

abbrev sent : Job
sent = record { retried = false; phase = in_flight; authorization = some 1; sends = 1 }

abbrev first_refreshes : Client
first_refreshes = record {
  storage = signed_in;
  is_refreshing = true;
  redirects = 0;
  jobs = record sent { phase = refreshing } ∷ sent ∷ [];
}

first_refreshes-run : run two_events (start signed_in) ≡ first_refreshes
unfolding run step issue on_error
first_refreshes-run = refl

run-start-Inv_example : Inv (run two_events (start signed_in))
run-start-Inv_example = run-start-Inv two_events signed_in

failed_during_refresh_example :
    let after = step (failed 1 (some 401)) first_refreshes in
    (after.storage ≡ record { access_token = none; refresh_token = none })
    × (after.redirects ≡ 1)
    × (get_elem? after.jobs 1 ≡ some (record sent { phase = rejected }))
    × (after.is_refreshing ≡ true)
failed_during_refresh_example = failed_during_refresh first_refreshes 1 sent refl refl refl refl

refreshed_sends_again_example :
    let after = step (refreshed 0 5 none) first_refreshes in
    (after.storage.access_token ≡ some 5)
    × (after.storage.refresh_token ≡ some 2)
    × (after.is_refreshing ≡ false)
    × (after.redirects ≡ 0)
    × (get_elem? after.jobs 0
        ≡ some (record { retried = true; phase = in_flight; authorization = some 5; sends = 2 }))
refreshed_sends_again_example =
    refreshed_sends_again first_refreshes 0 5 none (record sent { phase = refreshing }) refl refl

client-Settles_example : Settles first_refreshes
client-Settles_example = client-Settles first_refreshes

After-Acc_example : Acc After first_refreshes
After-Acc_example = After-Acc first_refreshes

-- The two requests of the example can take five answers more.
five_turns : total_turns (first_refreshes.jobs) ≡ 5
unfolding total_turns
five_turns = refl
