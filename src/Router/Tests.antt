-- ===== src/Router/Tests.antt =====
-- The dashboard's addresses.
use nexra.Prelude.{◌≡◌, refl, false, none, some, codes}
use nexra.Auth.{User, member}
use nexra.Router.{inside, contacts, sender_id_verification, app, render_page, login}

abbrev someone : User
someone = record { id = 1; role = member }

contacts_shown : app false (some someone) (codes "#/contacts") ≡ inside contacts
unfolding app render_page
contacts_shown = refl

verification_shown :
    app false (some someone) (codes "#/sender-ids/verify/42") ≡ inside (sender_id_verification 42)
unfolding app render_page
verification_shown = refl

guest_shown : app false none (codes "#/contacts") ≡ login
unfolding app
guest_shown = refl
