-- ===== src/Models.antt =====
-- models/*.py: the rows of the tables. A column that may be NULL is an option. Times are
-- microseconds; a confidence is in hundredths (0.95 is 95).
pub mod Policies
pub mod Evidence
use net_father.Prelude.{ℕ, Bool, Option, Text}

-- models/device.py
pub record Device : Type 0 where
  pub id : ℕ
  pub name : Text
  pub mac : Text
  pub ip : Option Text
  pub vendor : Option Text
  pub device_type : Text
  pub hostname : Option Text
  pub os_hint : Option Text
  pub online : Bool
  pub auto_registered : Bool
  pub identity_conflict : Bool
  pub identity_note : Option Text
  pub created_at : ℕ
  pub last_seen : Option ℕ

-- models/event.py. The timestamp is the clock's, and the program decides nothing by it.
pub record Event : Type 0 where
  pub id : ℕ
  pub event_type : Text
  pub description : Text
  pub device_mac : Option Text
  pub severity : Text
  pub metadata_json : Option Text
