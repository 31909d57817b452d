-- ===== src/Layout/Tests.antt =====
-- A run of the dashboard's shared data.
use nexra.Prelude.{◌+◌, ◌≤◌, ◌≡◌, refl, false, List, [], ◌∷◌, codes}
use nexra.Layout.{
  Notification, start, refreshed, clicked, ended, me_is, notifications_are, scrolled, run, settle,
  user_fetched, answered, step, Event, request_of, take_out, same_request,
}
use nexra.Layout.Visible.{IsInReach, run-start-IsInReach}
use nexra.Layout.Load.{to_come, costs, run-load}

abbrev news : Notification
news = record { id = 4; is_read = false; link = codes "#/messages" }

abbrev morning : List Event
morning =
    refreshed
    ∷ ended (me_is (codes "Ama"))
    ∷ ended (notifications_are (news ∷ []))
    ∷ clicked news
    ∷ scrolled 80
    ∷ []

-- The balance and the reading of the notification are still under way.
morning_requests : (run morning start).sent ≡ 4
unfolding run step answered settle user_fetched take_out same_request request_of
morning_requests = refl

run-load_example :
    (run morning start).sent + to_come (run morning start).in_flight
    ≤ start.sent + to_come start.in_flight + costs morning
run-load_example = run-load morning start

run-start-IsInReach_example : IsInReach (run morning start)
run-start-IsInReach_example = run-start-IsInReach morning
