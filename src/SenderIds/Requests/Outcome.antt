-- ===== src/SenderIds/Requests/Outcome.antt =====
-- What a click on "Submit" of the request form does on every branch.
use nexra.Prelude.{
  ℕ, suc, ◌≡◌, refl, ap, ◌∙◌, Option, filter, Bool, true, false, not, ◌&&◌, ◌||◌, none, some, List,
  [], ◌∷◌, ◌++◌, Text, trim, arith, ltb, leb, length, is_empty, Bool-cases, Option-cases, inl, inr,
  if◌then◌else◌, String, append_assoc, length-append, is_some,
}
use nexra.SenderIds.{
  Form, Body, or_null, SenderIds, Answer, ok, failed, clean_id, list_sender_ids, request_sender_id,
  empty_form, Call,
}
use nexra.SenderIds.Requests.{refusal, body_of, handle_request, fetch_sender_ids}

-- The three conditions on a form, for its cleaned sender ID.
abbrev pub is_complete : Text → Form → Bool
is_complete clean f =
    leb 3 (length clean)
    && (leb 10 (length (trim f.use_case))
        && not (is_empty (trim f.company_name) && is_empty (trim f.username)))

-- A text without the space around it, or `none` where nothing is left.
abbrev pub given : Text → Option Text
given s = if is_empty (trim s) then none else some (trim s)

-- What the request carries: the letters A to Z and the digits of the upper-case name, and every other
-- value without the space around it; a value that is empty then, other than the use case, is left out.
abbrev pub letters_and_digits : Text → Text
letters_and_digits = filter (λ c. (leb b'A' c && leb c b'Z') || (leb b'0' c && leb c b'9'))

abbrev pub wanted : (Text → Text) → Form → Body
wanted upper f = record {
  sender_id = letters_and_digits (upper (trim f.sender_id));
  company_name = given f.company_name;
  username = given f.username;
  use_case = trim f.use_case;
  website_or_social = given f.website_or_social;
  official_email = given f.official_email;
  registration_certificate = given f.registration_certificate;
  authorization_letter = given f.authorization_letter;
}

or_null-is_empty : (t : Text) → or_null t ≡ (if is_empty t then none else some t)
or_null-is_empty [] = refl
or_null-is_empty (c ∷ s) = refl

body_of-wanted :
    (upper : Text → Text) (f : Form) → body_of (clean_id upper f.sender_id) f ≡ wanted upper f
unfolding body_of clean_id
body_of-wanted upper f =
    rw
      (
        or_null-is_empty (trim f.company_name),
        or_null-is_empty (trim f.username),
        or_null-is_empty (trim f.website_or_social),
        or_null-is_empty (trim f.official_email),
        or_null-is_empty (trim f.registration_certificate),
        or_null-is_empty (trim f.authorization_letter),
      )
      refl

short_of :
    (s : Text) (n : ℕ) → (is_empty s || ltb (length s) (suc n)) ≡ not (leb (suc n) (length s))
short_of [] n = ground arith
short_of (c ∷ s) n = ground arith

refusal-is_complete :
    (clean : Text) (f : Form) → is_some (refusal clean f) ≡ not (is_complete clean f)
unfolding refusal
refusal-is_complete clean f = ground (arith, short_of clean 2, short_of (trim f.use_case) 9)

refusal-none : (clean : Text) (f : Form) → is_complete clean f ≡ true → refusal clean f ≡ none
refusal-none clean f h = ground (arith, refusal-is_complete clean f, h)

refusal-some :
    (clean : Text) (f : Form)
    → is_complete clean f ≡ false
    → (m : String) × (refusal clean f ≡ some m)
refusal-some clean f h = elim (Option-cases (refusal clean f)) [
  | inl e ↦ absurd (ground (arith, refusal-is_complete clean f, h, e))
  | inr e ↦ e
]

abbrev pub form_after : Answer → Form → Form
form_after ok f = empty_form
form_after (failed detail) f = f

abbrev pub then_list : Answer → List Call
then_list ok = list_sender_ids ∷ []
then_list (failed detail) = []

length-append_one : {A : Type 0} (xs : List A) (x : A) → length (xs ++ x ∷ []) ≡ suc (length xs)
length-append_one xs x = omega (arith, length-append xs (x ∷ []))

-- For any `toUpperCase` and any answer, submitting the request form shows one toast. A form whose
-- name has at least 3 letters A to Z and digits in upper case, with a use case of at least 10 units
-- without surrounding space and a company or a user name, sends one request with these letters and
-- digits and all values trimmed, those that are empty left out, is emptied and followed by a fetch
-- of the list exactly on success, and is free again; any other form sends nothing and stays.
pub handle_request-outcome :
    (upper : Text → Text) (answer : Answer) (p : SenderIds)
    → let body = wanted upper p.request_form in
      let complete = is_complete body.sender_id p.request_form in
      let after = handle_request upper answer p in
      (after.calls
        ≡ (if complete then p.calls ++ request_sender_id body ∷ then_list answer else p.calls))
      × (after.request_form
          ≡ (if complete then form_after answer p.request_form else p.request_form))
      × (after.is_submitting ≡ (if complete then false else p.is_submitting))
      × (length after.notices ≡ suc (length p.notices))
unfolding handle_request fetch_sender_ids clean_id
handle_request-outcome upper ok p =
    let clean = clean_id upper p.request_form.sender_id in
    elim (Bool-cases (is_complete clean p.request_form)) [
      | inl complete ↦
          rw (complete, refusal-none clean p.request_form complete, handle_request)
            (
              ap (λ b. (p.calls ++ request_sender_id b ∷ []) ++ list_sender_ids ∷ [])
                    (body_of-wanted upper p.request_form)
                  ∙ append_assoc p.calls (request_sender_id (wanted upper p.request_form) ∷ [])
                      (list_sender_ids ∷ []),
              refl,
              refl,
              length-append_one p.notices _,
            )
      | inr not_complete ↦
          let (message, refused) = refusal-some clean p.request_form not_complete in
          rw (not_complete, refused, handle_request)
            (refl, refl, refl, length-append_one p.notices _)
    ]
handle_request-outcome upper (failed detail) p =
    let clean = clean_id upper p.request_form.sender_id in
    elim (Bool-cases (is_complete clean p.request_form)) [
      | inl complete ↦
          rw (complete, refusal-none clean p.request_form complete, handle_request)
            (
              ap (λ b. p.calls ++ request_sender_id b ∷ []) (body_of-wanted upper p.request_form),
              refl,
              refl,
              length-append_one p.notices _,
            )
      | inr not_complete ↦
          let (message, refused) = refusal-some clean p.request_form not_complete in
          rw (not_complete, refused, handle_request)
            (refl, refl, refl, length-append_one p.notices _)
    ]
