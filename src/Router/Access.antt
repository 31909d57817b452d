-- ===== src/Router/Access.antt =====
-- Who sees which page, and where a navigation leads.
use nexra.Prelude.{
  ◌≡◌, ◌≢◌, refl, Bool, true, false, Option, none, some, [], ◌∷◌, ◌++◌, Text, arith, All, split_on,
  append_assoc, append-nil, is_some, ap, sym,
}
use nexra.Auth.{User}
use nexra.Router.{Page, inside, current_page, app, navigate, render_page}

-- A page of the application shows only to a signed-in user, once loading has ended.
pub app-inside :
    (loading : Bool) (user : Option User) (hash : Text) (p : Page)
    → app loading user hash ≡ inside p
    → (loading ≡ false) × (is_some user ≡ true) × (p ≡ render_page hash)
unfolding app
app-inside loading none hash p h = ground arith
app-inside loading (some u) hash p h = ground arith

abbrev pub NoSlash : Text → Type 0
NoSlash = All (λ c. c ≢ b'/')

pub split_on-NoSlash : (cur s : Text) → NoSlash s → split_on b'/' cur s ≡ (cur ++ s) ∷ []
unfolding split_on
split_on-NoSlash cur [] h = ap (λ t. t ∷ []) (sym (append-nil cur))
split_on-NoSlash cur (c ∷ s) h =
    ground (arith, append_assoc cur (c ∷ []) s, split_on-NoSlash (cur ++ c ∷ []) s h.1)

-- Going to a page by its name, which is not empty and holds no slash, leads to that page: the
-- address's page is the name.
pub current_page-navigate :
    (page : Text) → page ≢ [] → NoSlash page → current_page (navigate page) ≡ page
unfolding current_page split_on
current_page-navigate [] e h = absurd (e refl)
current_page-navigate (c ∷ s) e h = ground (arith, split_on-NoSlash [] (c ∷ s) h)
