-- ===== src/Banner/Tests.antt =====
-- Three announcements, of which the oldest is the most urgent.
use mathlib.Core.List.{Perm}
use nexra.Prelude.{◌≡◌, ℕ, refl, Option, none, some, List, [], ◌∷◌, Text, codes, map}
use nexra.Banner.{
  Announcement, Banner, start, undismissed, visible_announcements, active_announcement, Event,
  answered, ticked, dismissed, renders, step, handle, settle, handle_dismiss, not_after,
  priority_rank,
}
use nexra.Banner.Order.{IsSorted, visible_announcements-IsSorted}

abbrev same : Text → Text
same t = t

abbrev news : Announcement
news = record { id = 1; priority = none; created_at = 20 }

abbrev outage : Announcement
outage = record { id = 2; priority = some (codes "critical"); created_at = 10 }

abbrev later : Announcement
later = record { id = 3; priority = some (codes "normal"); created_at = 30 }

abbrev banner : Banner
banner = record (start (1 ∷ [])) { announcements = news ∷ outage ∷ later ∷ [] }

visible-order : map (λ a. a.id) (visible_announcements same banner) ≡ 2 ∷ 3 ∷ []
unfolding visible_announcements not_after priority_rank
visible-order = refl

visible_announcements-IsSorted_example :
    IsSorted same (visible_announcements same banner)
    × Perm (visible_announcements same banner) (undismissed banner)
visible_announcements-IsSorted_example = visible_announcements-IsSorted same banner

abbrev events : List Event
events = answered (some (some (news ∷ outage ∷ later ∷ []))) ∷ ticked ∷ dismissed 2 ∷ []

-- The last of two announcements is dismissed: before the effects the index is one of none, and the
-- first is shown.
dismissed-last :
    let p = record (start []) { announcements = outage ∷ later ∷ []; active_index = 1 } in
    map {B = ℕ × Option Announcement}
      (λ r. (r.active_index, active_announcement same r))
      (renders same (dismissed 3 ∷ []) p)
    ≡ (1, some later) ∷ (1, some outage) ∷ (0, some outage) ∷ []
unfolding renders step handle settle handle_dismiss active_announcement visible_announcements
    not_after priority_rank
dismissed-last = refl
