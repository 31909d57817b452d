-- ===== src/Landing/Menu.antt =====
-- The mobile menu: which of the menu and the two icons have the class "hidden".
use nexra.Prelude.{◌≡◌, Bool, true, false, not, ◌&&◌, List, [], ◌∷◌, if◌then◌else◌, arith}

pub record Menu : Type 0 where
  pub menu_hidden : Bool
  pub hamburger_hidden : Bool
  pub close_hidden : Bool

-- `toggleMobileMenu`
pub toggle_mobile_menu : Menu → Menu
toggle_mobile_menu m =
    let is_open = not m.menu_hidden in
    record { menu_hidden = is_open; hamburger_hidden = not is_open; close_hidden = is_open }

-- A click anywhere: `in_menu` and `in_button` say what contains its target.
pub close_on_outside_click : (in_menu in_button : Bool) → Menu → Menu
close_on_outside_click in_menu in_button m =
    if not m.menu_hidden && not in_menu && not in_button
    then record { menu_hidden = true; hamburger_hidden = false; close_hidden = true }
    else m

pub data Event : Type 0 where
  toggled : Event
  clicked : (in_menu in_button : Bool) → Event

pub step : Event → Menu → Menu
step toggled m = toggle_mobile_menu m
step (clicked in_menu in_button) m = close_on_outside_click in_menu in_button m

pub run : List Event → Menu → Menu
run [] m = m
run (e ∷ es) m = run es (step e m)

-- Of the two icons, the one that fits the menu is shown.
abbrev pub Matches : Menu → Type 0
Matches m = (m.hamburger_hidden ≡ not m.menu_hidden) × (m.close_hidden ≡ m.menu_hidden)

step-Matches : (e : Event) (m : Menu) → Matches m → Matches (step e m)
unfolding step toggle_mobile_menu close_on_outside_click
step-Matches toggled m h = ground arith
step-Matches (clicked in_menu in_button) m h = ground arith

-- Whatever is clicked, in any order, from a menu whose icons fit: exactly one of the two icons is
-- shown, the burger when the menu is closed and the cross when it is open.
pub run-Matches : (es : List Event) (m : Menu) → Matches m → Matches (run es m)
unfolding run
run-Matches [] m h = h
run-Matches (e ∷ es) m h = run-Matches es (step e m) (step-Matches e m h)
