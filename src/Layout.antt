-- ===== src/Layout.antt =====
-- nexra-dashboard/src/components/layout/DashboardLayout.js, with NotificationDropdown.js beside it:
-- the data that every page of the dashboard shares, its refreshes, the notifications and the bar that
-- hides while the page scrolls. An answer comes as an event, in any order.
mod Load
mod Visible
mod Tests
mod Search
use nexra.Prelude.{
  ℕ, ◌+◌, ◌≡◌, Bool, true, false, not, ◌&&◌, ◌||◌, Option, none, some, List, [], ◌∷◌, ◌++◌, Text,
  codes, text_eq, ◌==◌, ltb, filter, length, if◌then◌else◌,
}

-- `link` is empty where there is none.
pub record Notification : Type 0 where
  pub id : ℕ
  pub is_read : Bool
  pub link : Text

pub record Balance : Type 0 where
  pub wallet : ℕ
  pub subscription : ℕ

pub data Request : Type 0 where
  auth_me billing_balance get_notifications read_all : Request
  read_one : ℕ → Request

-- How a request ended.
pub data Answer : Type 0 where
  me_is : (full_name : Text) → Answer
  balance_is : Balance → Answer
  notifications_are : List Notification → Answer
  all_read : Answer
  one_read : ℕ → Answer
  failed : Request → Answer

pub request_of : Answer → Request
request_of (me_is name) = auth_me
request_of (balance_is b) = billing_balance
request_of (notifications_are ns) = get_notifications
request_of all_read = read_all
request_of (one_read id) = read_one id
request_of (failed r) = r

-- `in_flight` has the requests with no answer yet, `sent` counts all of them, `updates` has the
-- types of the `nexra:update` events and `navigated` the addresses that were opened.
pub record Layout : Type 0 where
  pub user : Option Text
  pub balance : Balance
  pub notifications : List Notification
  pub is_nav_visible : Bool
  pub last_scroll_y : ℕ
  pub is_dropdown_open : Bool
  pub in_flight : List Request
  pub sent : ℕ
  pub updates : List Text
  pub navigated : List Text

abbrev pub start : Layout
start = record {
  user = none;
  balance = record { wallet = 0; subscription = 0 };
  notifications = [];
  is_nav_visible = true;
  last_scroll_y = 0;
  is_dropdown_open = false;
  in_flight = [];
  sent = 0;
  updates = [];
  navigated = [];
}

abbrev send : Request → Layout → Layout
send r l = record l { in_flight = r ∷ l.in_flight; sent = l.sent + 1 }

pub fetch_user_data : Layout → Layout
fetch_user_data l = send auth_me l

pub fetch_wallet : Layout → Layout
fetch_wallet l = send billing_balance l

pub fetch_notifications : Layout → Layout
fetch_notifications l = send get_notifications l

pub handle_mark_read : ℕ → Layout → Layout
handle_mark_read id l = send (read_one id) l

pub handle_mark_all_read : Layout → Layout
handle_mark_all_read l = send read_all l

pub user_fetched : Text → Layout → Layout
unfolding fetch_wallet fetch_notifications
user_fetched name l = fetch_notifications (fetch_wallet (record l { user = some name }))

-- What the five functions do after their `await`; a failure is only logged.
pub settle : Answer → Layout → Layout
unfolding user_fetched fetch_notifications
settle (me_is name) l = user_fetched name l
settle (balance_is b) l = record l { balance = b }
settle (notifications_are ns) l = record l { notifications = ns }
settle all_read l = fetch_notifications l
settle (one_read id) l = fetch_notifications l
settle (failed r) l = l

pub same_request : Request → Request → Bool
same_request auth_me auth_me = true
same_request billing_balance billing_balance = true
same_request get_notifications get_notifications = true
same_request read_all read_all = true
same_request (read_one i) (read_one j) = i == j
same_request r s = false

-- The requests without the first that is `r`, where there is one.
pub take_out : Request → List Request → Option (List Request)
take_out r [] = none
take_out r (s ∷ rs) =
    if same_request s r
    then some rs
    else elim (take_out r rs) [ none ↦ none | some others ↦ some (s ∷ others) ]

pub answered : Answer → Layout → Layout
answered a l = elim (take_out (request_of a) l.in_flight) [
  | none ↦ l
  | some others ↦ settle a (record l { in_flight = others })
]

pub handle_scroll : ℕ → Layout → Layout
handle_scroll y l =
    if ltb l.last_scroll_y y && ltb 50 y
    then record l { is_nav_visible = false; last_scroll_y = y }
    else if ltb y l.last_scroll_y
    then record l { is_nav_visible = true; last_scroll_y = y }
    else record l { last_scroll_y = y }

-- A message of the socket, by its `type`; `none` is one that does not parse.
pub is_refresh : Text → Bool
unfolding text_eq
is_refresh t =
    text_eq t (codes "message_updated")
    || text_eq t (codes "plan_updated")
    || text_eq t (codes "balance_updated")

pub on_message : Option Text → Layout → Layout
unfolding fetch_user_data is_refresh
on_message none l = l
on_message (some t) l =
    if is_refresh t then record (fetch_user_data l) { updates = l.updates ++ t ∷ [] } else l

-- `onSent` of the quick sending.
pub on_sent : Layout → Layout
unfolding fetch_wallet fetch_notifications
on_sent l = record (fetch_notifications (fetch_wallet l)) {
  updates = l.updates ++ codes "message_updated" ∷ [];
}

-- The dropdown.
pub unread_count : Layout → ℕ
unread_count l = length (filter (λ n. not n.is_read) l.notifications)

abbrev links : Text → List Text
links [] = []
links (c ∷ s) = (c ∷ s) ∷ []

pub click_notification : Notification → Layout → Layout
unfolding handle_mark_read
click_notification n l = record (if n.is_read then l else handle_mark_read n.id l) {
  is_dropdown_open = false;
  navigated = l.navigated ++ links n.link;
}

-- `refreshed` is the first render, the timer of a minute and a completed profile.
pub data Event : Type 0 where
  refreshed mark_all quick_sent toggled : Event
  scrolled : ℕ → Event
  socket : Option Text → Event
  clicked : Notification → Event
  ended : Answer → Event

pub step : Event → Layout → Layout
unfolding fetch_user_data handle_mark_all_read on_sent handle_scroll on_message click_notification
    answered
step refreshed l = fetch_user_data l
step mark_all l = handle_mark_all_read l
step quick_sent l = on_sent l
step toggled l = record l { is_dropdown_open = not l.is_dropdown_open }
step (scrolled y) l = handle_scroll y l
step (socket m) l = on_message m l
step (clicked n) l = click_notification n l
step (ended a) l = answered a l

pub run : List Event → Layout → Layout
run [] l = l
run (e ∷ es) l = run es (step e l)
