-- ===== src/Landing/Tests.antt =====
-- The parts of the landing page in states that the page comes to.
use nexra.Prelude.{◌+◌, ◌≡◌, refl, true, false, none, [], ◌∷◌, ◌++◌, codes, length}
use nexra.Landing.Signup.{Form, Signup, paid, handle_submit, handle_submit-charges}
use nexra.Landing.Table.{Page, waitlist, loading}

abbrev form : Form
form = record { email = codes "a@b"; full_name = none; company_name = none }

abbrev signup : Signup
signup = record {
  loading = false;
  disabled = false;
  waitlist_count = 12;
  cleared = false;
  toasts = [];
  charges = [];
  sent = [];
}

handle_submit-charges_example :
    let w = handle_submit true form (paid (codes "r") true) signup in
    (w.disabled ≡ false)
    × (length w.toasts ≡ 0 + 1)
    × (w.charges ≡ [] ++ record { email = codes "a@b"; amount = 5000 } ∷ [])
    × (w.waitlist_count ≡ 12 + 1)
handle_submit-charges_example = handle_submit-charges true form (paid (codes "r") true) signup refl

abbrev page : Page
page = record {
  current_data = [];
  active_tab = waitlist;
  waitlist_count = none;
  donation_count = none;
  body = loading;
}
