-- ===== src/Contacts/Csv.antt =====
-- `exportContactsToCSV`: the text of the file. A reader of quoted fields shows what a program that
-- opens the file gets back.
pub mod Reading
use nexra.Prelude.{
  ℕ, String, Bool, true, false, Option, none, some, List, [], ◌∷◌, ◌++◌, Text, codes, ◌==◌,
  if◌then◌else◌, map, join, get_or_else,
}
use nexra.Contacts.{Contact}

-- `.replace(/"/g, '""')`
pub double_quotes : Text → Text
double_quotes [] = []
double_quotes (c ∷ s) = if c == b'"' then c ∷ c ∷ double_quotes s else c ∷ double_quotes s

-- A field in quotes.
pub quoted : Text → Text
unfolding double_quotes
quoted s = b'"' ∷ (double_quotes s ++ b'"' ∷ [])

-- The phone number, wrapped as ="…" so that a spreadsheet keeps it as a text.
pub quoted_phone : Text → Text
unfolding double_quotes
quoted_phone s = codes "\"=\"\"" ++ (double_quotes s ++ codes "\"\"\"")

abbrev pub or_empty : Option Text → Text
or_empty o = get_or_else o []

pub row : Contact → List Text
row c =
    quoted (or_empty c.first_name)
    ∷ quoted (or_empty c.last_name)
    ∷ quoted_phone c.phone_number
    ∷ quoted (or_empty c.network)
    ∷ []

abbrev pub headers : Text
headers = codes "First Name,Last Name,Phone Number,Network"

-- The content of the file; without contacts there is none.
pub export_contacts_to_csv : List Contact → Option Text
unfolding row
export_contacts_to_csv [] = none
export_contacts_to_csv (c ∷ cs) =
    some (join (codes "\n") (headers ∷ map (λ k. join (codes ",") (row k)) (c ∷ cs)))
