-- ===== src/Banner/Shown.antt =====
-- Which announcement is shown.
use nexra.Prelude.{◌<◌, ◌≡◌, ◌⊎◌, false, Option, none, some, [], Text, includes, length}
use nexra.Banner.{Announcement, Banner, visible_announcements, active_announcement}

-- The index is one of a visible announcement, or 0 when there may be none.
abbrev IsInRange : (Text → Text) → Banner → Type 0
IsInRange lower p = (p.active_index < length (visible_announcements lower p)) ⊎ (p.active_index ≡ 0)

module _ (lower : Text → Text) where
  -- The announcement is not one of the dismissed.
  abbrev pub IsKept : Banner → Announcement → Type 0
  IsKept p a = includes p.dismissed_ids a.id ≡ false

  -- What a render shows: an announcement that was not dismissed, or nothing when all of them were.
  abbrev Shows : Banner → Option Announcement → Type 0
  Shows p none = visible_announcements lower p ≡ []
  Shows p (some a) = IsKept p a

  abbrev pub IsShown : Banner → Type 0
  IsShown p = Shows p (active_announcement lower p)
