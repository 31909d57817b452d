-- ===== src/Wizard/Preview.antt =====
-- The live previews of the wizard: the parts of the message, and the contact that it is shown for.
pub mod Laws
use nexra.Prelude.{
  ℕ, ◌+◌, ◌-◌, ◌/◌, Bool, true, false, not, ◌&&◌, Option, none, some, List, [], ◌∷◌, Text, codes,
  ◌==◌, ltb, if◌then◌else◌, find, trim, split, join, drop, get_or_else,
}
use nexra.Wizard.{Contact, RawContact, Group, Wizard, Answer, ok, failed}
use nexra.Wizard.Steps.{limit}

-- What stands under the editor of step 3; `over_by` is shown only over the limit, `parts` only
-- under it.
pub record Badge : Type 0 where
  pub characters : ℕ
  pub over : Bool
  pub over_by : ℕ
  pub parts : ℕ
  pub is_multi : Bool

pub message_parts : ℕ → ℕ
message_parts len = if ltb 160 len then (len + 152) / 153 else if len == 0 then 0 else 1

pub message_badge : ℕ → Badge
unfolding message_parts
message_badge len =
    let over = ltb limit len in
    record {
      characters = len;
      over = over;
      over_by = len - limit;
      parts = message_parts len;
      is_multi = ltb 1 (message_parts len) && not over;
    }

-- The contact of the preview: a name may be null.
pub record Preview : Type 0 where
  pub first_name : Option Text
  pub last_name : Option Text
  pub phone_number : Text

abbrev pub placeholder : Preview
placeholder = record {
  first_name = some (codes "John");
  last_name = some (codes "Doe");
  phone_number = codes "233241234567";
}

abbrev pub preview_of : Contact → Preview
preview_of c = record {
  first_name = c.first_name;
  last_name = c.last_name;
  phone_number = c.phone_number;
}

abbrev head_or : List Text → Text
head_or [] = []
head_or (t ∷ ts) = t

-- A contact from the phone: its first word is the first name, the rest the last name.
pub preview_of_raw : RawContact → Preview
preview_of_raw rc =
    let parts = split b' ' (trim rc.name) in
    record {
      first_name = some (head_or parts);
      last_name = some (join (codes " ") (drop 1 parts));
      phone_number = rc.phone;
    }

-- Priority 3 and the fallback.
pub preview_raw : List RawContact → Preview
unfolding preview_of_raw
preview_raw [] = placeholder
preview_raw (rc ∷ rest) = preview_of_raw rc

-- Priority 2: the first member of the first selected segment; `members` answers the request.
pub preview_groups : List ℕ → Answer (List Contact) → List RawContact → Preview
unfolding preview_raw
preview_groups [] members raw = preview_raw raw
preview_groups (g ∷ gs) (failed detail) raw = preview_raw raw
preview_groups (g ∷ gs) (ok []) raw = preview_raw raw
preview_groups (g ∷ gs) (ok (c ∷ cs)) raw = preview_of c

-- Priority 1: the first selected contact, if it was fetched.
pub update_preview :
    List ℕ → List Contact → List ℕ → Answer (List Contact) → List RawContact → Preview
unfolding preview_groups
update_preview [] contacts groups members raw = preview_groups groups members raw
update_preview (id ∷ ids) contacts groups members raw = elim (find (λ c. c.id == id) contacts) [
  | some c ↦ preview_of c
  | none ↦ preview_groups groups members raw
]
