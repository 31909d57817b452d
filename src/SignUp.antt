-- ===== src/SignUp.antt =====
-- nexra-dashboard/src/pages/RegisterPage.js and LoginPage.js: the forms that open a session. The
-- session itself is the provider's (Auth); `parameters` of an address are its tokens.
pub mod Spelling
mod Tests
use Prim.Native.String
use text.Mathlib.Text.{◌==◌ as str_eq}
use nexra.Prelude.{
  ℕ, String, Bool, true, false, not, ◌||◌, Option, none, some, List, [], ◌∷◌, ◌++◌, Text, codes,
  is_empty, filter, length, ltb, if◌then◌else◌, ◌==◌, includes, find, text_eq,
}
use nexra.Phone.{is_digit}
use nexra.Auth.{Auth, put_access, fetch_user, signed_in}
use nexra.SenderIds.{detail_or}

-- `localNumber.replace(/^0/, '')`
abbrev pub without_zero : Text → Text
without_zero [] = []
without_zero (c ∷ s) = if c == b'0' then s else c ∷ s

-- What `PhoneInput` reports for a country code and the number typed.
pub phone_input : Text → Text → Text
phone_input code local = code ++ without_zero local

pub record RegisterForm : Type 0 where
  pub full_name : Text
  pub organization_name : Text
  pub email : Text
  pub password : Text
  pub phone_number : Text

-- The page next to the session it opens.
pub record SignUp : Type 0 where
  pub auth : Auth
  pub form : RegisterForm
  pub error : String
  pub loading : Bool
  pub hash : Text
  pub registered : List RegisterForm

-- `error.response.data.detail`: absent, a text, or a list of complaints by their first message.
pub data Detail : Type 0 where
  missing : Detail
  worded : String → Detail
  complaints : Option String → Detail

pub register_error : Detail → String
register_error missing = "Registration failed"
register_error (worded detail) = detail_or (some detail) "Registration failed"
register_error (complaints first) = detail_or first "Validation error in form data"

-- `formData.phone_number.replace(/\D/g, '').length < 7`
pub is_too_short : Text → Bool
unfolding is_digit
is_too_short phone = is_empty phone || ltb (length (filter is_digit phone)) 7

-- The answer to the registration: the access token, or what was wrong.
pub data Registered : Type 0 where
  token : ℕ → Registered
  refused : Detail → Registered

-- `handleSubmit` of the registration, from its start to its end. The page changes once the request
-- for the user has been answered as well.
pub handle_register : Registered → SignUp → SignUp
unfolding register_error
handle_register answer p =
    if is_too_short p.form.phone_number
    then record p { error = "Please enter a valid phone number." }
    else let asked = record p { error = ""; registered = p.registered ++ p.form ∷ [] } in
      elim answer [
        | token t ↦ record asked {
          auth = signed_in (some t) p.auth;
          hash = codes "#/dashboard";
          loading = false;
        }
        | refused detail ↦ record asked { error = register_error detail; loading = false }
      ]

-- `handleSubmit` of the login; the answer is the token, or the detail of a refusal.
pub handle_login : Option ℕ → Option String → SignUp → SignUp
handle_login none detail p = record p {
  error = detail_or detail "Invalid credentials";
  loading = false;
}
handle_login (some t) detail p = record p {
  auth = signed_in (some t) p.auth;
  error = "";
  hash = codes "#/dashboard";
  loading = false;
}

-- The first render of the login with a token in the address (the query first, then the fragment),
-- and of the registration, which reads the fragment only and fetches nobody.
pub process_token : (query fragment : Option ℕ) → SignUp → SignUp
process_token none none p = p
process_token (some t) fragment p = record p {
  auth = fetch_user (put_access (some t) p.auth);
  hash = codes "#/dashboard";
}
process_token none (some t) p = record p {
  auth = fetch_user (put_access (some t) p.auth);
  hash = codes "#/dashboard";
}

pub register_token : Option ℕ → SignUp → SignUp
register_token none p = p
register_token (some t) p = record p {
  auth = put_access (some t) p.auth;
  hash = codes "#/dashboard";
}
