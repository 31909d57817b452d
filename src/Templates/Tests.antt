-- ===== src/Templates/Tests.antt =====
-- A template that is made and another that is deleted.
use nexra.Prelude.{◌≡◌, refl, true, false, none, [], ◌∷◌, codes}
use nexra.SenderIds.{ok}
use nexra.Templates.{
  Templates, handle_create, handle_delete, ask_delete, list_templates, post_template,
  delete_template,
}

abbrev page : Templates
page = record {
  templates = [];
  loading = false;
  show_create_modal = true;
  template_data = record { title = codes "Hello"; content = codes "Hi" };
  confirm_delete = none;
  is_deleting = false;
  calls = [];
  notices = [];
}

created-deleted :
    (handle_delete ok (ask_delete 3 (handle_create ok page))).calls
    ≡ post_template page.template_data ∷ list_templates ∷ delete_template 3 ∷ list_templates ∷ []
unfolding handle_create handle_delete ask_delete
created-deleted = refl
