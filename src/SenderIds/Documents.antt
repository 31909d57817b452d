-- ===== src/SenderIds/Documents.antt =====
-- nexra-dashboard/src/pages/SenderIDVerificationPage.js: the page that sends the documents which a
-- request for a sender ID still needs. A chosen file is known by a number.
use nexra.Prelude.{
  ℕ, ◌≡◌, refl, String, Bool, true, false, Option, none, some, List, [], ◌∷◌, ◌++◌, Text, codes,
  find, ◌==◌, arith, Bool-cases, Option-cases, append-nil, sym, inl, inr,
}
use nexra.Toasts.{Variant, success, error}
use nexra.Wizard.{Notice}
use nexra.SenderIds.{Answer, ok, failed, detail_or}

pub record Application : Type 0 where
  pub id : ℕ
  pub company_name : Option Text
  pub organization_name : Option Text
  pub username : Option Text
  pub use_case : Option Text
  pub website_or_social : Option Text
  pub official_email : Option Text

-- The form, which is also what a submission appends to its payload.
pub record Papers : Type 0 where
  pub company_name : Text
  pub username : Text
  pub use_case : Text
  pub website_or_social : Text
  pub official_email : Text
  pub notes : Text
  pub registration_certificate : Option ℕ
  pub authorization_letter : Option ℕ

pub data Call : Type 0 where
  list_sender_ids : Call
  post_verification : ℕ → Papers → Call

pub record Verification : Type 0 where
  pub loading : Bool
  pub submitting : Bool
  pub request : Option Application
  pub form : Papers
  pub hash : Text
  pub calls : List Call
  pub notices : List Notice

abbrev notify : String → Variant → Verification → Verification
notify message variant p = record p {
  notices = p.notices ++ record { message = message; variant = variant } ∷ [];
}

abbrev call : Call → Verification → Verification
call c p = record p { calls = p.calls ++ c ∷ [] }

abbrev or_empty : Option Text → Text
or_empty none = []
or_empty (some t) = t

-- `a || b || ''`
abbrev or_else : Option Text → Option Text → Text
or_else (some (c ∷ s)) b = c ∷ s
or_else _ b = or_empty b

-- `fetchRequest` and its answer for the page of the request `id`.
pub fetch_request : Verification → Verification
fetch_request p = call list_sender_ids (record p { loading = true })

pub prefilled : Application → Papers → Papers
prefilled found f = record f {
  company_name = or_else found.company_name found.organization_name;
  username = or_empty found.username;
  use_case = or_empty found.use_case;
  website_or_social = or_empty found.website_or_social;
  official_email = or_empty found.official_email;
}

abbrev or_no_items : Option (List Application) → List Application
or_no_items none = []
or_no_items (some items) = items

abbrev opened : Option Application → Verification → Verification
opened none p = record p { request = none; loading = false }
opened (some found) p = record p {
  request = some found;
  form = prefilled found p.form;
  loading = false;
}

pub fetched : ℕ → Option (Option (List Application)) → Verification → Verification
fetched id none p = record (notify "Failed to load the verification page." error p) {
  loading = false;
}
fetched id (some items) p = opened (find (λ item. item.id == id) (or_no_items items)) p

-- `handleSubmit` from its start to its end.
pub handle_submit : Answer → Verification → Verification
unfolding detail_or
handle_submit answer p = elim p.request [
  | none ↦ p
  | some request ↦
      let sent = call (post_verification request.id p.form) (record p { submitting = true }) in
      elim answer [
        | ok ↦ record (notify "Verification documents submitted successfully." success sent) {
          hash = codes "#/sender-ids";
          submitting = false;
        }
        | failed detail ↦
            record (notify (detail_or detail "Unable to submit verification documents.") error
              sent) { submitting = false }
      ]
]

find-holds :
    (id : ℕ) (items : List Application) (found : Application)
    → find (λ item. item.id == id) items ≡ some found
    → found.id ≡ id
find-holds id [] found h = absurd (ground arith)
find-holds id (item ∷ items) found h = elim (Bool-cases (item.id == id)) [
  | inl e ↦ ground (arith, e, h)
  | inr e ↦ find-holds id items found (ground (arith, e, h))
]

-- Submitting after the list was fetched, with any answer, sends the prefilled form under the
-- identity of the page for the first request of that identity, and nothing when there is none.
pub handle_submit-fetched :
    (id : ℕ) (items : List Application) (answer : Answer) (p : Verification)
    → (handle_submit answer (fetched id (some (some items)) p)).calls
      ≡ p.calls ++ elim (find (λ item. item.id == id) items) [
        | none ↦ []
        | some found ↦ post_verification id (prefilled found p.form) ∷ []
      ]
unfolding fetched handle_submit
handle_submit-fetched id items ok p = elim (Option-cases (find (λ item. item.id == id) items)) [
  | inl gone ↦ rw gone (sym (append-nil p.calls))
  | inr (found, here) ↦ rw (here, find-holds id items found here) refl
]
handle_submit-fetched id items (failed detail) p =
    elim (Option-cases (find (λ item. item.id == id) items)) [
      | inl gone ↦ rw gone (sym (append-nil p.calls))
      | inr (found, here) ↦ rw (here, find-holds id items found here) refl
    ]
