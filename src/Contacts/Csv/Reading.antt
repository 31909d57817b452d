-- ===== src/Contacts/Csv/Reading.antt =====
-- Reading the exported fields back.
use nexra.Prelude.{
  ℕ, zero, suc, ◌≡◌, ◌≢◌, refl, Option, none, some, List, [], ◌∷◌, ◌++◌, Text, codes, ◌==◌,
  if◌then◌else◌, join, arith, append_assoc,
}
use nexra.Contacts.{Contact}
use nexra.Contacts.Csv.{double_quotes, quoted, quoted_phone, row, or_empty}

-- The rest of a quoted field after its opening quote: the content, and what follows the closing
-- quote. Two quotes stand for one.
abbrev prepend : ℕ → Option (Text × Text) → Option (Text × Text)
prepend c none = none
prepend c (some (s, rest)) = some (c ∷ s, rest)

pub read_quoted : Text → Option (Text × Text)
read_quoted [] = none
read_quoted (c ∷ []) = if c == b'"' then some ([], []) else none
read_quoted (c ∷ d ∷ s) =
    if c == b'"'
    then if d == b'"' then prepend c (read_quoted s) else some ([], d ∷ s)
    else prepend c (read_quoted (d ∷ s))

abbrev prepend_field : Text → Option (List Text × Text) → Option (List Text × Text)
prepend_field t none = none
prepend_field t (some (ts, rest)) = some (t ∷ ts, rest)

-- At most `n` quoted fields with commas between, and what follows the last.
pub read_row : ℕ → Text → Option (List Text × Text)
unfolding read_quoted
read_row zero s = none
read_row (suc n) [] = none
read_row (suc n) (q ∷ s) =
    if q == b'"'
    then elim (read_quoted s) [
      | none ↦ none
      | some (t, []) ↦ some (t ∷ [], [])
      | some (t, c ∷ rest) ↦
          if c == b',' then prepend_field t (read_row n rest) else some (t ∷ [], c ∷ rest)
    ]
    else none

-- What follows a field does not go on with a quote.
abbrev Ends : Text → Type 0
Ends [] = Unit
Ends (c ∷ s) = c ≢ b'"'

pub read_quoted-double_quotes :
    (s rest : Text) → Ends rest → read_quoted (double_quotes s ++ (b'"' ∷ rest)) ≡ some (s, rest)
unfolding read_quoted double_quotes
read_quoted-double_quotes [] [] h = ground arith
read_quoted-double_quotes [] (r ∷ rest) h = ground arith
read_quoted-double_quotes (c ∷ []) rest h = ground (arith, read_quoted-double_quotes [] rest h)
read_quoted-double_quotes (c ∷ d ∷ s) rest h =
    ground (arith, read_quoted-double_quotes (d ∷ s) rest h)

double_quotes-append : (s t : Text) → double_quotes (s ++ t) ≡ double_quotes s ++ double_quotes t
unfolding double_quotes
double_quotes-append [] t = refl
double_quotes-append (c ∷ s) t = ground (arith, double_quotes-append s t)

-- The phone number's field holds the number between =" and ".
abbrev pub wrapped : Text → Text
wrapped s = codes "=\"" ++ (s ++ codes "\"")

quoted_phone-wrapped : (s : Text) → quoted_phone s ≡ quoted (wrapped s)
unfolding quoted_phone quoted double_quotes
quoted_phone-wrapped s = ground (
  arith,
  double_quotes-append s (codes "\""),
  append_assoc (double_quotes s) (codes "\"\"") (codes "\""),
)

-- Reading a field before another one, and before the end of the row.
read_row-more :
    (n : ℕ) (t rest : Text)
    → read_row (suc n) (quoted t ++ (b',' ∷ rest)) ≡ prepend_field t (read_row n rest)
unfolding read_row quoted
read_row-more n t rest = ground (
  arith,
  append_assoc (double_quotes t) (b'"' ∷ []) (b',' ∷ rest),
  read_quoted-double_quotes t (b',' ∷ rest) (omega arith),
)

-- The row is over: what follows is neither a quote nor a comma.
abbrev pub EndsRow : Text → Type 0
EndsRow [] = Unit
EndsRow (c ∷ s) = (c ≢ b'"') × (c ≢ b',')

read_row-last :
    (n : ℕ) (t rest : Text)
    → EndsRow rest
    → read_row (suc n) (quoted t ++ rest) ≡ some (t ∷ [], rest)
unfolding read_row quoted
read_row-last n t [] h =
    ground (arith, append_assoc (double_quotes t) (b'"' ∷ []) [], read_quoted-double_quotes t [] tt)
read_row-last n t (c ∷ rest) h = ground (
  arith,
  append_assoc (double_quotes t) (b'"' ∷ []) (c ∷ rest),
  read_quoted-double_quotes t (c ∷ rest) h.0,
)

-- The four values of a contact.
abbrev pub fields : Contact → List Text
fields c =
    or_empty c.first_name ∷ or_empty c.last_name ∷ wrapped c.phone_number ∷ or_empty c.network ∷ []

-- What the row still holds from its second, third and fourth field on.
abbrev from_network : Contact → Text
from_network c = quoted (or_empty c.network)

abbrev from_phone : Contact → Text
from_phone c = quoted (wrapped c.phone_number) ++ (b',' ∷ from_network c)

abbrev from_last : Contact → Text
from_last c = quoted (or_empty c.last_name) ++ (b',' ∷ from_phone c)

-- Whatever quotes, commas and line ends the values hold, the exported row of a contact reads back
-- as its four values, the phone number between =" and ", when what follows the row is neither a
-- quote nor a comma.
pub read_row-row :
    (c : Contact) (rest : Text)
    → EndsRow rest
    → read_row 4 (join (codes ",") (row c) ++ rest) ≡ some (fields c, rest)
unfolding row
read_row-row c rest h = rw (
  quoted_phone-wrapped c.phone_number,
  append_assoc (quoted (or_empty c.first_name)) (b',' ∷ from_last c) rest,
  read_row-more 3 (or_empty c.first_name) (from_last c ++ rest),
  append_assoc (quoted (or_empty c.last_name)) (b',' ∷ from_phone c) rest,
  read_row-more 2 (or_empty c.last_name) (from_phone c ++ rest),
  append_assoc (quoted (wrapped c.phone_number)) (b',' ∷ from_network c) rest,
  read_row-more 1 (wrapped c.phone_number) (from_network c ++ rest),
  read_row-last 0 (or_empty c.network) rest h,
)
