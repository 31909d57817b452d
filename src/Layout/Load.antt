-- ===== src/Layout/Load.antt =====
-- How many requests the refreshes of the dashboard make.
use nexra.Prelude.{
  ℕ, ◌+◌, ◌≤◌, ◌≡◌, true, Bool-cases, Option-cases, inl, inr, refl, List, [], ◌∷◌, Option, none,
  some, Text, if◌then◌else◌, arith,
}
use nexra.Layout.{
  Request, auth_me, billing_balance, get_notifications, read_all, read_one, same_request, take_out,
  Answer, me_is, balance_is, notifications_are, all_read, one_read, failed, request_of, Layout,
  settle, user_fetched, answered, handle_scroll, is_refresh, on_message, on_sent,
  click_notification, handle_mark_read, handle_mark_all_read, fetch_user_data, fetch_wallet,
  fetch_notifications, Notification, Event, refreshed, mark_all, quick_sent, toggled, scrolled,
  socket, clicked, ended, step, run,
}

-- The requests that the answer to a request may lead to.
pub follow_ups : Request → ℕ
follow_ups auth_me = 2
follow_ups billing_balance = 0
follow_ups get_notifications = 0
follow_ups read_all = 1
follow_ups (read_one id) = 1

pub to_come : List Request → ℕ
to_come [] = 0
to_come (r ∷ rs) = follow_ups r + to_come rs

-- What an event costs, its follow-ups counted.
pub cost : Event → ℕ
cost refreshed = 3
cost mark_all = 2
cost quick_sent = 2
cost toggled = 0
cost (scrolled y) = 0
cost (socket none) = 0
cost (socket (some t)) = if is_refresh t then 3 else 0
cost (clicked n) = if n.is_read then 0 else 2
cost (ended a) = 0

pub costs : List Event → ℕ
costs [] = 0
costs (e ∷ es) = cost e + costs es

abbrev load : Layout → ℕ
load l = l.sent + to_come l.in_flight

same_request-follow_ups : (r s : Request) → same_request s r ≡ true → follow_ups s ≡ follow_ups r
unfolding same_request
same_request-follow_ups auth_me auth_me h = refl
same_request-follow_ups r s h = ground (arith, h)

take_out-to_come :
    (r : Request) (rs others : List Request)
    → take_out r rs ≡ some others
    → follow_ups r + to_come others ≡ to_come rs
unfolding take_out to_come
take_out-to_come r [] others h = ground (arith, h)
take_out-to_come r (s ∷ rs) others h = elim (Bool-cases (same_request s r)) [
  | inl e ↦ ground (arith, h, e, same_request-follow_ups r s e)
  | inr e ↦ elim (Option-cases (take_out r rs)) [
    | inl f ↦ ground (arith, h, e, f)
    | inr (kept, f) ↦ ground (arith, h, e, f, take_out-to_come r rs kept f)
  ]
]

-- An answer sends no more than the follow-ups of its request.
settle-load : (a : Answer) (l : Layout) → load (settle a l) ≤ load l + follow_ups (request_of a)
unfolding settle user_fetched fetch_wallet fetch_notifications to_come follow_ups request_of
settle-load (me_is name) l = omega arith
settle-load (balance_is b) l = omega arith
settle-load (notifications_are ns) l = omega arith
settle-load all_read l = omega arith
settle-load (one_read id) l = omega arith
settle-load (failed r) l = omega arith

answered-load : (a : Answer) (l : Layout) → load (answered a l) ≤ load l
unfolding answered
answered-load a l = elim (Option-cases (take_out (request_of a) l.in_flight)) [
  | inl e ↦ rw (e, answered) (omega arith)
  | inr (others, e) ↦
      let taken = take_out-to_come (request_of a) l.in_flight others e in
      rw (e, answered) (omega (arith, taken, settle-load a (record l { in_flight = others })))
]

on_message-load : (m : Option Text) (l : Layout) → load (on_message m l) ≤ load l + cost (socket m)
unfolding on_message fetch_user_data cost to_come follow_ups
on_message-load none l = omega arith
on_message-load (some t) l = elim (Bool-cases (is_refresh t)) [
  | inl e ↦ rw (e, on_message) (omega arith)
  | inr e ↦ rw (e, on_message) (omega arith)
]

click_notification-load :
    (n : Notification) (l : Layout) → load (click_notification n l) ≤ load l + cost (clicked n)
unfolding click_notification handle_mark_read cost to_come follow_ups
click_notification-load n l = elim (Bool-cases n.is_read) [
  | inl e ↦ rw (e, click_notification) (omega arith)
  | inr e ↦ rw (e, click_notification) (omega arith)
]

handle_scroll-load : (y : ℕ) (l : Layout) → load (handle_scroll y l) ≡ load l
unfolding handle_scroll
handle_scroll-load y l = ground arith

step-load : (e : Event) (l : Layout) → load (step e l) ≤ load l + cost e
unfolding step fetch_user_data handle_mark_all_read on_sent fetch_wallet fetch_notifications cost
    to_come follow_ups
step-load refreshed l = omega arith
step-load mark_all l = omega arith
step-load quick_sent l = omega arith
step-load toggled l = omega arith
step-load (scrolled y) l = omega (arith, handle_scroll-load y l)
step-load (socket m) l = on_message-load m l
step-load (clicked n) l = click_notification-load n l
step-load (ended a) l = omega (arith, answered-load a l)

-- The requests that a run of the dashboard sends, with those that are still to follow, are no more
-- than what its events cost: three for a refresh, two for reading a notification, all of them or
-- for a quick sending, and none for an answer, however it comes.
pub run-load :
    (es : List Event) (l : Layout)
    → (run es l).sent + to_come (run es l).in_flight ≤ l.sent + to_come l.in_flight + costs es
unfolding run costs
run-load [] l = omega arith
run-load (e ∷ es) l = omega (arith, run-load es (step e l), step-load e l)
