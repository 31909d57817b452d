-- ===== src/Admin/Platform/Actions/Stale.antt =====
-- What a click on a row does when the rows are those of the other tab.
use nexra.Prelude.{ℕ, ◌≡◌, refl, false, some, List, [], ◌∷◌, ◌++◌, append_assoc, ◌∙◌}
use nexra.SenderIds.{Answer, ok, failed}
use nexra.Admin.Platform.{
  users, orgs, Row, Platform, Call, paginated, fetched, set_active_tab, fetch_data, list_of, delete,
  page_size,
}
use nexra.Admin.Platform.Actions.{handle_delete, on_confirm}

abbrev pub then_list : Answer → List Call
then_list ok = list_of orgs 0 page_size ∷ []
then_list (failed detail) = []

-- When the list of users is answered only after a click on the organizations' tab, those users show
-- as rows of that tab with the loading state over, and confirming the deletion of one asks the
-- server to delete the organization of the same identity; the list is fetched anew exactly when
-- that succeeds.
pub fetched-set_active_tab-delete :
    (rows : List Row) (total id token : ℕ) (answer : Answer) (p : Platform)
    → p.active_tab ≡ users
    → let late = fetched (some (paginated rows total)) (set_active_tab orgs p) in
      let after = on_confirm token answer (handle_delete id late) in
      (late.active_tab ≡ orgs)
      × (late.rows ≡ rows)
      × (late.loading ≡ false)
      × (after.calls ≡ p.calls ++ list_of orgs 0 page_size ∷ delete orgs id ∷ then_list answer)
unfolding fetched set_active_tab fetch_data handle_delete on_confirm
fetched-set_active_tab-delete rows total id token ok p h =
    rw (h, set_active_tab)
      (
        refl,
        refl,
        refl,
        append_assoc (p.calls ++ list_of orgs 0 page_size ∷ []) (delete orgs id ∷ [])
              (list_of orgs 0 page_size ∷ [])
            ∙ append_assoc p.calls (list_of orgs 0 page_size ∷ [])
                (delete orgs id ∷ list_of orgs 0 page_size ∷ []),
      )
fetched-set_active_tab-delete rows total id token (failed detail) p h =
    rw (h, set_active_tab)
      (refl, refl, refl, append_assoc p.calls (list_of orgs 0 page_size ∷ []) (delete orgs id ∷ []))
