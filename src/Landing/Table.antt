-- ===== src/Landing/Table.antt =====
-- nexra-landing/waitlist.js: the table of the waitlist and of the donations.
use nexra.Prelude.{
  ℕ, ◌+◌, ◌≡◌, refl, Bool, not, Option, none, some, List, [], ◌∷◌, Text, codes, text_eq, is_empty,
  filter, length, if◌then◌else◌, arith, count,
}

pub record Entry : Type 0 where
  pub position : ℕ
  pub email : Text
  pub name : Text

pub data Tab : Type 0 where
  waitlist donations : Tab

-- What the body of the table shows.
pub data Body : Type 0 where
  loading : Body
  load_failed : Body
  no_entries : Tab → Body
  rows : Tab → List Entry → Body

pub record Page : Type 0 where
  pub current_data : List Entry
  pub active_tab : Tab
  pub waitlist_count : Option ℕ
  pub donation_count : Option ℕ
  pub body : Body

abbrev pub is_donation : Entry → Bool
is_donation e = text_eq e.name (codes "DONATION")

abbrev pub shown_in : Tab → Entry → Bool
shown_in waitlist e = not (is_donation e)
shown_in donations e = is_donation e

-- `renderTable`
pub render_table : Page → Page
unfolding text_eq
render_table p =
    let filtered_data = filter (shown_in p.active_tab) p.current_data in
    if is_empty filtered_data
    then record p { body = no_entries p.active_tab }
    else record p { body = rows p.active_tab filtered_data }

pub switch_tab : Tab → Page → Page
unfolding render_table
switch_tab tab p = render_table (record p { active_tab = tab })

-- The entries and their counts, before they are rendered.
abbrev with_entries : List Entry → Page → Page
with_entries entries p = record p {
  current_data = entries;
  waitlist_count = some (length (filter (shown_in waitlist) entries));
  donation_count = some (length (filter (shown_in donations) entries));
}

-- `fetchWaitlist`: the entries, or none when the request failed.
pub fetch_waitlist : Option (List Entry) → Page → Page
fetch_waitlist none p = record p { body = load_failed }
fetch_waitlist (some entries) p = render_table (with_entries entries p)

-- How often an entry is among the rows.
abbrev pub occurrences : (Entry → Bool) → Body → ℕ
occurrences p (rows tab es) = count p es
occurrences p _ = 0

count-filters :
    (p q : Entry → Bool) (es : List Entry)
    → count p (filter (λ e. not (q e)) es) + count p (filter q es) ≡ count p es
count-filters p q [] = refl
count-filters p q (e ∷ es) = ground (arith, count-filters p q es)

length-filters :
    (q : Entry → Bool) (es : List Entry)
    → length (filter (λ e. not (q e)) es) + length (filter q es) ≡ length es
length-filters q [] = refl
length-filters q (e ∷ es) = ground (arith, length-filters q es)

-- The rows of a tab.
occurrences-switch_tab :
    (test : Entry → Bool) (tab : Tab) (p : Page)
    → occurrences test (switch_tab tab p).body ≡ count test (filter (shown_in tab) p.current_data)
unfolding switch_tab render_table
occurrences-switch_tab test tab p = of_rows (filter (shown_in tab) p.current_data)
  where
    of_rows :
        (es : List Entry)
        → occurrences test
            (if is_empty es
              then record p { active_tab = tab; body = no_entries tab }
              else record p { active_tab = tab; body = rows tab es }).body
          ≡ count test es
    of_rows [] = refl
    of_rows (e ∷ es) = refl

render_table-keeps :
    (p : Page)
    → ((render_table p).current_data ≡ p.current_data)
      × ((render_table p).waitlist_count ≡ p.waitlist_count)
      × ((render_table p).donation_count ≡ p.donation_count)
unfolding render_table
render_table-keeps p = ground arith

-- Once the entries have been fetched, the two tabs together show each of them once: for every test
-- on entries, as many rows pass it in the two tabs as there are entries that pass; and the counts
-- above the tabs add up to the number of entries.
pub fetch_waitlist-switch_tab :
    (test : Entry → Bool) (entries : List Entry) (p : Page)
    → (occurrences test (switch_tab waitlist (fetch_waitlist (some entries) p)).body
          + occurrences test (switch_tab donations (fetch_waitlist (some entries) p)).body
        ≡ count test entries)
      × ((w d : ℕ) × ((fetch_waitlist (some entries) p).waitlist_count ≡ some w)
          × ((fetch_waitlist (some entries) p).donation_count ≡ some d)
          × (w + d ≡ length entries))
unfolding fetch_waitlist
fetch_waitlist-switch_tab test entries p = (
  rows_of_both,
  (
    length (filter (shown_in waitlist) entries),
    length (filter (shown_in donations) entries),
    (render_table-keeps (with_entries entries p)).1,
    (render_table-keeps (with_entries entries p)).2,
    length-filters is_donation entries,
  ),
)
  where
    rows_of_both :
        occurrences test (switch_tab waitlist (fetch_waitlist (some entries) p)).body
          + occurrences test (switch_tab donations (fetch_waitlist (some entries) p)).body
        ≡ count test entries
    rows_of_both =
        rw
          (
            occurrences-switch_tab test waitlist (fetch_waitlist (some entries) p),
            occurrences-switch_tab test donations (fetch_waitlist (some entries) p),
            (render_table-keeps (with_entries entries p)).0,
          )
          (count-filters test is_donation entries)
