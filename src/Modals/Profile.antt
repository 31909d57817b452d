-- ===== src/Modals/Profile.antt =====
-- nexra-dashboard/src/components/CompleteProfileModal.js: asking for the number of a user who has
-- none.
use nexra.Prelude.{
  ℕ, suc, String, Bool, true, false, ◌||◌, Option, none, some, List, [], ◌∷◌, ◌++◌, Text, length,
  ltb, is_empty, if◌then◌else◌,
}
use nexra.Toasts.{Variant, success, error}
use nexra.Wizard.{Notice}
use nexra.SenderIds.{Answer, ok, failed, detail_or}

pub record Profile : Type 0 where
  pub is_open : Bool
  pub loading : Bool
  pub phone_number : Text
  pub put : List Text
  pub completions : ℕ
  pub notices : List Notice

abbrev notify : String → Variant → Profile → Profile
notify message variant p = record p {
  notices = p.notices ++ record { message = message; variant = variant } ∷ [];
}

-- The effect on the user: `none` while there is none, else the number it has, which may be missing.
pub on_user : Option (Option Text) → Profile → Profile
on_user none p = record p { is_open = false }
on_user (some none) p = record p { is_open = true }
on_user (some (some [])) p = record p { is_open = true }
on_user (some (some (c ∷ s))) p = record p { is_open = false }

pub handle_submit : Answer → Profile → Profile
handle_submit answer p =
    if is_empty p.phone_number || ltb (length p.phone_number) 9
    then notify "Please enter a valid phone number" error p
    else let asked = record p { put = p.put ++ p.phone_number ∷ [] } in
      elim answer [
        | ok ↦ record (notify "Profile updated successfully!" success asked) {
          completions = suc p.completions;
          is_open = false;
          loading = false;
        }
        | failed detail ↦
            record (notify (detail_or detail "Failed to update profile") error asked) {
              loading = false;
            }
      ]
