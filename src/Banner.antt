-- ===== src/Banner.antt =====
-- nexra-dashboard/src/components/layout/AnnouncementBanner.js: the announcements above every page.
-- `created_at` is the time in milliseconds. The dismissed identities are kept in the browser's
-- storage as well (`stored`). A handler leads to a render (`handle`), and the effects of that render run
-- after it was shown and lead to another (`settle`); both are in `renders`.
pub mod Order
pub mod Shown
mod Tests
use nexra.Prelude.{
  ℕ, suc, ◌+◌, Bool, true, false, not, ◌&&◌, ◌||◌, Option, none, some, List, [], ◌∷◌, Text, codes,
  text_eq, ◌==◌, ltb, leb, if◌then◌else◌, filter, includes, length, get_elem?, set_add,
}

pub record Announcement : Type 0 where
  pub id : ℕ
  pub priority : Option Text
  pub created_at : ℕ

-- `PRIORITY_RANK[(priority || 'normal').toLowerCase()] || PRIORITY_RANK.normal`; `lower` is
-- `toLowerCase`.
abbrev pub or_normal : Option Text → Text
or_normal none = codes "normal"
or_normal (some []) = codes "normal"
or_normal (some (c ∷ s)) = c ∷ s

pub priority_rank : (Text → Text) → Announcement → ℕ
unfolding text_eq
priority_rank lower a =
    let priority = lower (or_normal a.priority) in
    if text_eq priority (codes "critical")
    then 4
    else if text_eq priority (codes "high")
    then 3
    else if text_eq priority (codes "low")
    then 1
    else 2

-- The comparison puts `a` before `b`, or leaves them in their order.
pub not_after : (Text → Text) → Announcement → Announcement → Bool
not_after lower a b =
    if priority_rank lower a == priority_rank lower b
    then leb b.created_at a.created_at
    else ltb (priority_rank lower b) (priority_rank lower a)

-- `sort` keeps the order of what compares equal.
abbrev pub insert : (Text → Text) → Announcement → List Announcement → List Announcement
insert lower a [] = a ∷ []
insert lower a (b ∷ bs) =
    let inserted = insert lower a bs in if not_after lower a b then a ∷ b ∷ bs else b ∷ inserted

abbrev pub sort : (Text → Text) → List Announcement → List Announcement
sort lower [] = []
sort lower (a ∷ rest) = insert lower a (sort lower rest)

pub record Banner : Type 0 where
  pub announcements : List Announcement
  pub dismissed_ids : List ℕ
  pub stored : List ℕ
  pub active_index : ℕ
  pub expanded : Bool

-- The first render, with what the storage holds.
abbrev pub start : List ℕ → Banner
start saved = record {
  announcements = [];
  dismissed_ids = saved;
  stored = saved;
  active_index = 0;
  expanded = false;
}

abbrev pub undismissed : Banner → List Announcement
undismissed p = filter (λ a. not (includes p.dismissed_ids a.id)) p.announcements

pub visible_announcements : (Text → Text) → Banner → List Announcement
visible_announcements lower p = sort lower (undismissed p)

-- `visibleAnnouncements[activeIndex] || visibleAnnouncements[0]`
abbrev first_of : Option Announcement → List Announcement → Option Announcement
first_of (some a) rest = some a
first_of none rest = get_elem? rest 0

pub active_announcement : (Text → Text) → Banner → Option Announcement
active_announcement lower p =
    first_of (get_elem? (visible_announcements lower p) p.active_index)
      (visible_announcements lower p)

-- The answer to `fetchAnnouncements`; a failure changes nothing, `null` is no announcements.
abbrev or_no_announcements : Option (List Announcement) → List Announcement
or_no_announcements none = []
or_no_announcements (some rest) = rest

pub fetched : Option (Option (List Announcement)) → Banner → Banner
fetched none p = p
fetched (some rest) p = record p { announcements = or_no_announcements rest }

-- The timer, which runs while there are several announcements and none is expanded.
pub rotate : (Text → Text) → Banner → Banner
unfolding visible_announcements
rotate lower p =
    let n = length (visible_announcements lower p) in
    if leb n 1 || p.expanded
    then p
    else record p { active_index = if leb n (p.active_index + 1) then 0 else p.active_index + 1 }

pub handle_dismiss : ℕ → Banner → Banner
handle_dismiss id p =
    let next = set_add p.dismissed_ids id in record p { dismissed_ids = next; stored = next }

pub pick : ℕ → Banner → Banner
pick i p = record p { active_index = i }

pub toggle_expanded : Banner → Banner
toggle_expanded p = record p { expanded = not p.expanded }

-- The effect on the index and on the number of announcements, when one of them has changed since the
-- effects of the render `old`.
pub settle : (Text → Text) → Banner → Banner → Banner
unfolding visible_announcements
settle lower old p =
    let n = length (visible_announcements lower p) in
    if p.active_index == old.active_index && n == length (visible_announcements lower old)
    then p
    else record p {
      active_index = if leb n p.active_index then 0 else p.active_index;
      expanded = false;
    }

pub data Event : Type 0 where
  answered : Option (Option (List Announcement)) → Event
  ticked : Event
  dismissed picked : ℕ → Event
  toggled : Event

pub handle : (Text → Text) → Event → Banner → Banner
handle lower (answered rest) p = fetched rest p
handle lower ticked p = rotate lower p
handle lower (dismissed id) p = handle_dismiss id p
handle lower (picked i) p = pick i p
handle lower toggled p = toggle_expanded p

-- The effects of a render run before the next event is handled.
pub step : (Text → Text) → Event → Banner → Banner
unfolding handle settle
step lower e p = settle lower p (handle lower e p)

pub run : (Text → Text) → List Event → Banner → Banner
run lower [] p = p
run lower (e ∷ es) p = run lower es (step lower e p)

-- Every render, in order: the first, and for each event one before its effects and one after them.
pub renders : (Text → Text) → List Event → Banner → List Banner
renders lower [] p = p ∷ []
renders lower (e ∷ es) p = p ∷ handle lower e p ∷ renders lower es (step lower e p)
