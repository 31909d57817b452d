-- ===== src/Templates.antt =====
-- nexra-dashboard/src/pages/TemplatesPage.js: the templates of messages.
mod Tests
use nexra.Prelude.{
  ℕ, ◌≡◌, refl, sym, String, Bool, true, false, Option, none, some, List, [], ◌∷◌, ◌++◌, Text,
  append_assoc,
}
use nexra.Toasts.{Variant, success, error}
use nexra.Wizard.{Notice}
use nexra.SenderIds.{Answer, ok, failed}

pub record TemplateData : Type 0 where
  pub title : Text
  pub content : Text

pub data Call : Type 0 where
  list_templates : Call
  post_template : TemplateData → Call
  delete_template : ℕ → Call

-- `confirm_delete` is the identity in the dialog, `none` while it is closed.
pub record Templates : Type 0 where
  pub templates : List (ℕ × TemplateData)
  pub loading : Bool
  pub show_create_modal : Bool
  pub template_data : TemplateData
  pub confirm_delete : Option ℕ
  pub is_deleting : Bool
  pub calls : List Call
  pub notices : List Notice

abbrev notify : String → Variant → Templates → Templates
notify message variant p = record p {
  notices = p.notices ++ record { message = message; variant = variant } ∷ [];
}

abbrev call : Call → Templates → Templates
call c p = record p { calls = p.calls ++ c ∷ [] }

pub fetch_templates : Templates → Templates
fetch_templates p = call list_templates p

pub fetched : Option (List (ℕ × TemplateData)) → Templates → Templates
fetched none p = record p { loading = false }
fetched (some items) p = record p { templates = items; loading = false }

-- `handleCreate` and `handleDelete`, from their start to their end.
pub handle_create : Answer → Templates → Templates
unfolding fetch_templates
handle_create ok p =
    fetch_templates
      (record (notify "Template created!" success (call (post_template p.template_data) p)) {
        show_create_modal = false;
        template_data = record { title = []; content = [] };
      })
handle_create (failed detail) p =
    notify "Failed to create template" error (call (post_template p.template_data) p)

pub ask_delete : ℕ → Templates → Templates
ask_delete id p = record p { confirm_delete = some id }

pub handle_delete : Answer → Templates → Templates
unfolding fetch_templates
handle_delete answer p = elim p.confirm_delete [
  | none ↦ p
  | some id ↦ elim answer [
    | ok ↦
        record (fetch_templates
          (record (notify "Template deleted" success (call (delete_template id) p)) {
            confirm_delete = none;
          })) { is_deleting = false }
    | failed detail ↦
        record (notify "Failed to delete template" error (call (delete_template id) p)) {
          is_deleting = false;
        }
  ]
]

abbrev pub then_list : Answer → List Call
then_list ok = list_templates ∷ []
then_list (failed detail) = []

abbrev pub draft_after : Answer → TemplateData → TemplateData
draft_after ok draft = record { title = []; content = [] }
draft_after (failed detail) draft = draft

-- What creating a template and then deleting one do to the requests, on every answer. A failed
-- creation keeps what was typed.
pub handle_create-handle_delete :
    (id : ℕ) (created deleted : Answer) (p : Templates)
    → let after = handle_delete deleted (ask_delete id (handle_create created p)) in
      (after.calls
        ≡ p.calls
          ++ (post_template p.template_data ∷ then_list created)
          ++ (delete_template id ∷ then_list deleted))
      × (after.template_data ≡ draft_after created p.template_data)
unfolding handle_create handle_delete ask_delete
handle_create-handle_delete id ok ok p = (simp (append_assoc), refl)
handle_create-handle_delete id ok (failed d) p = (simp (append_assoc), refl)
handle_create-handle_delete id (failed d) ok p = (simp (append_assoc), refl)
handle_create-handle_delete id (failed d) (failed e) p = (simp (append_assoc), refl)
