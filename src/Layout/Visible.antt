-- ===== src/Layout/Visible.antt =====
-- When the bar of the dashboard hides.
use nexra.Prelude.{
  ℕ, ◌<◌, ◌≡◌, ◌⊎◌, Bool-cases, Option-cases, inl, inr, refl, true, List, [], ◌∷◌, Option, none,
  some, Text, arith,
}
use nexra.Layout.{
  Answer, me_is, balance_is, notifications_are, all_read, one_read, failed, request_of, Layout,
  start, settle, user_fetched, take_out, answered, handle_scroll, is_refresh, on_message, on_sent,
  click_notification, handle_mark_read, handle_mark_all_read, fetch_user_data, fetch_wallet,
  fetch_notifications, Notification, Event, refreshed, mark_all, quick_sent, toggled, scrolled,
  socket, clicked, ended, step, run,
}

-- The bar shows, or the page is past the first 50 pixels.
abbrev pub IsInReach : Layout → Type 0
IsInReach l = (l.is_nav_visible ≡ true) ⊎ (50 < l.last_scroll_y)

handle_scroll-IsInReach : (y : ℕ) (l : Layout) → IsInReach l → IsInReach (handle_scroll y l)
unfolding handle_scroll
handle_scroll-IsInReach y l v = ground (arith, v)

settle-IsInReach : (a : Answer) (l : Layout) → IsInReach l → IsInReach (settle a l)
unfolding settle user_fetched fetch_wallet fetch_notifications
settle-IsInReach (me_is name) l v = v
settle-IsInReach (balance_is b) l v = v
settle-IsInReach (notifications_are ns) l v = v
settle-IsInReach all_read l v = v
settle-IsInReach (one_read id) l v = v
settle-IsInReach (failed r) l v = v

answered-IsInReach : (a : Answer) (l : Layout) → IsInReach l → IsInReach (answered a l)
unfolding answered
answered-IsInReach a l v = elim (Option-cases (take_out (request_of a) l.in_flight)) [
  | inl e ↦ rw (e, answered) v
  | inr (others, e) ↦ rw (e, answered) (settle-IsInReach a (record l { in_flight = others }) v)
]

click_notification-IsInReach :
    (n : Notification) (l : Layout) → IsInReach l → IsInReach (click_notification n l)
unfolding click_notification handle_mark_read
click_notification-IsInReach n l v = elim (Bool-cases n.is_read) [
  | inl e ↦ rw (e, click_notification) v
  | inr e ↦ rw (e, click_notification) v
]

on_message-IsInReach : (m : Option Text) (l : Layout) → IsInReach l → IsInReach (on_message m l)
unfolding on_message fetch_user_data
on_message-IsInReach none l v = v
on_message-IsInReach (some t) l v = elim (Bool-cases (is_refresh t)) [
  | inl e ↦ rw e v
  | inr e ↦ rw e v
]

step-IsInReach : (e : Event) (l : Layout) → IsInReach l → IsInReach (step e l)
unfolding step fetch_user_data handle_mark_all_read on_sent fetch_wallet fetch_notifications
step-IsInReach refreshed l v = v
step-IsInReach mark_all l v = v
step-IsInReach quick_sent l v = v
step-IsInReach toggled l v = v
step-IsInReach (scrolled y) l v = handle_scroll-IsInReach y l v
step-IsInReach (socket m) l v = on_message-IsInReach m l v
step-IsInReach (clicked n) l v = click_notification-IsInReach n l v
step-IsInReach (ended a) l v = answered-IsInReach a l v

run-IsInReach : (es : List Event) (l : Layout) → IsInReach l → IsInReach (run es l)
unfolding run
run-IsInReach [] l v = v
run-IsInReach (e ∷ es) l v = run-IsInReach es (step e l) (step-IsInReach e l v)

-- Whatever happens on the dashboard, in whatever order, the bar is hidden only while the last
-- position of the page is more than 50 pixels down.
pub run-start-IsInReach : (es : List Event) → IsInReach (run es start)
run-start-IsInReach es = run-IsInReach es start (inl refl)
