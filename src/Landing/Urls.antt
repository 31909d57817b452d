-- ===== src/Landing/Urls.antt =====
-- `getDashboardUrl`, which finds the dashboard from where the landing page is.
use nexra.Prelude.{
  ◌≡◌, refl, false, ◌||◌, Option, none, some, [], ◌∷◌, ◌++◌, Text, codes, text_eq, ◌==◌, includes,
  get_or_else, if◌then◌else◌, arith,
}

-- `s.substring(0, s.lastIndexOf('/'))`: empty when there is no slash.
pub before_last_slash : Text → Option Text
before_last_slash [] = none
before_last_slash (c ∷ s) = elim (before_last_slash s) [
  | some t ↦ some (c ∷ t)
  | none ↦ if c == b'/' then some [] else none
]

abbrev pub parent : Text → Text
parent s = get_or_else (before_last_slash s) []

pub record Location : Type 0 where
  pub protocol : Text
  pub pathname : Text
  pub hostname : Text

-- The two cases of a web server differ in nothing but the folder.
pub get_dashboard_url : Location → Text → Text
unfolding text_eq before_last_slash
get_dashboard_url location path =
    if text_eq location.protocol (codes "file:")
    then codes "file://"
      ++ (parent (parent location.pathname) ++ (codes "/nexra-dashboard/index.html" ++ path))
    else if text_eq location.hostname (codes "localhost")
        || text_eq location.hostname (codes "127.0.0.1")
    then codes "/nexra-dashboard/index.html" ++ path
    else codes "/app/index.html" ++ path

-- A name of a file or a folder holds no slash.
abbrev IsName : Text → Type 0
IsName s = includes s b'/' ≡ false

before_last_slash-IsName : (s : Text) → IsName s → before_last_slash s ≡ none
unfolding before_last_slash
before_last_slash-IsName [] h = refl
before_last_slash-IsName (c ∷ s) h = ground (arith, before_last_slash-IsName s)

before_last_slash-append :
    (s name : Text) → IsName name → before_last_slash (s ++ (b'/' ∷ name)) ≡ some s
unfolding before_last_slash
before_last_slash-append [] name h = ground (arith, before_last_slash-IsName name h)
before_last_slash-append (c ∷ s) name h = ground (arith, before_last_slash-append s name h)

-- Opened from a file `root/folder/file`, where neither name holds a slash, the page leads to the
-- dashboard's folder in the same root.
pub get_dashboard_url-file :
    (root folder file hostname path : Text)
    → IsName folder
    → IsName file
    → get_dashboard_url
        (record {
          protocol = codes "file:";
          pathname = (root ++ (b'/' ∷ folder)) ++ (b'/' ∷ file);
          hostname = hostname;
        })
        path
      ≡ codes "file://" ++ (root ++ (codes "/nexra-dashboard/index.html" ++ path))
unfolding get_dashboard_url
get_dashboard_url-file root folder file hostname path h k = rw (
  before_last_slash-append (root ++ (b'/' ∷ folder)) file k,
  before_last_slash-append root folder h,
)
