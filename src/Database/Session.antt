-- ===== src/Database/Session.antt =====
-- `Database.session` of core/database.py: the block sees and changes the tables; an exception in it
-- rolls them back, and the end of the block commits them.
use net_father.Prelude.{
  Bool, true, false, Option, none, some, [], ◌∷◌, ◌++◌, map, Text, Result, ok, err, Error,
  err_not_ok, ◌≡◌, refl,
}
use net_father.Prelude.Strings.{codes}
use net_father.Models.{Event}
use net_father.Database.Tables.{Database, fresh_id}

abbrev pub Session : Type 0 → Type 0
Session A = Database → Result (A × Database)

module _ {A : Type 0} where
  abbrev pub pure : A → Session A
  pure a db = ok (a, db)

  abbrev pub raise : Error → Session A
  raise e db = err e

  abbrev pub gets : (Database → A) → Session A
  gets f db = ok (f db, db)

  -- `if value is None: raise e`
  abbrev pub require : Option A → Error → Session A
  require none e = raise e
  require (some a) e = pure a

  -- A computation outside the tables that may raise.
  abbrev pub lift : Result A → Session A
  lift (ok a) = pure a
  lift (err e) = raise e

abbrev pub modify : (Database → Database) → Session (Unit {0})
modify f db = ok (tt, f db)

abbrev pub raise_when : Bool → Error → Session (Unit {0})
raise_when true e = raise e
raise_when false e = pure tt

-- What follows a step, given how the step ended.
abbrev pub proceed :
    {A B : Type 0} → (A → Session B) → Result (A × Database) → Result (B × Database)
proceed f (ok (a, db)) = f a db
proceed f (err e) = err e

infixl 5 ◌>>=◌ ◌>>◌
abbrev pub ◌>>=◌ : {A B : Type 0} → Session A → (A → Session B) → Session B
◌>>=◌ m f db = proceed f (m db)

abbrev pub ◌>>◌ : {B : Type 0} → Session (Unit {0}) → Session B → Session B
m >> k = m >>= λ _. k

-- The `with` statement: what the caller gets, and the tables that stay.
abbrev pub settle : {A : Type 0} → Database → Result (A × Database) → Result A × Database
settle db (ok (a, db')) = (ok a, db')
settle db (err e) = (err e, db)

unfoldable pub session : {A : Type 0} → Session A → Database → Result A × Database
session m db = settle db (m db)

-- `session.add(Event(...))`
abbrev pub add_event : Text → Text → Option Text → Text → Option Text → Database → Database
add_event event_type description device_mac severity metadata_json db = record db {
  events =
      db.events
      ++ (record {
        id = fresh_id (map (λ (e : Event). e.id) db.events);
        event_type = event_type;
        description = description;
        device_mac = device_mac;
        severity = severity;
        metadata_json = metadata_json;
      }
          ∷ []);
}

-- An event of the default severity.
unfoldable pub note : Text → Text → Option Text → Option Text → Session (Unit {0})
note event_type description device_mac metadata_json =
    modify (add_event event_type description device_mac (codes "info") metadata_json)

-- A chain that returned did so at its first step.
pub proceed-ok :
    {A B : Type 0} (f : A → Session B) (r : Result (A × Database)) {b : B} {db' : Database}
    → proceed f r ≡ ok (b, db')
    → (a : A) × (db₁ : Database) × (r ≡ ok (a, db₁)) × (f a db₁ ≡ ok (b, db'))
proceed-ok f (ok (a, db₁)) h = (a, db₁, refl, h)
proceed-ok f (err e) h = absurd (err_not_ok h)
