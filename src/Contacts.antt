-- ===== src/Contacts.antt =====
-- nexra-dashboard/src/pages/ContactsPage.js: contacts and segments.
mod Tests
pub mod Csv
pub mod Dedupe
pub mod Segments
pub mod Directory
use nexra.Prelude.{ℕ, Option, Text}

pub record Contact : Type 0 where
  pub id : ℕ
  pub first_name : Option Text
  pub last_name : Option Text
  pub phone_number : Text
  pub network : Option Text

pub record Group : Type 0 where
  pub id : ℕ
  pub name : Text
  pub description : Text
  pub contact_count : ℕ
