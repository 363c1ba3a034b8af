-- ===== src/Database/Keeps.antt =====
-- Properties of the tables that the steps of a session keep.
use net_father.Prelude.{
  Bool, true, false, if◌then◌else◌, Option, none, some, Result, ok, err, Error, err_not_ok,
  ok_injective, ◌≡◌, refl, ap, subst,
}
use net_father.Database.Tables.{Database}
use net_father.Database.Session.{
  Session, pure, ◌>>=◌, proceed-ok, require, lift, modify, raise_when, settle, session,
}

abbrev pub returned : {A : Type 0} → A → Database → Result (A × Database)
returned a db = ok (a, db)

pub same_state :
    {A : Type 0} {a b : A} {db db' : Database} → returned a db ≡ returned b db' → db ≡ db'
same_state h = ap (λ p. p.1) (ok_injective h)

pub same_value : {A : Type 0} {a b : A} {db db' : Database} → returned a db ≡ returned b db' → a ≡ b
same_value h = ap (λ p. p.0) (ok_injective h)

pub require-ok :
    {A : Type 0} (o : Option A) (e : Error) {a : A} {db db' : Database}
    → require o e db ≡ returned a db'
    → (o ≡ some a) × (db ≡ db')
require-ok none e h = absurd (err_not_ok h)
require-ok (some x) e h = (ap some (same_value h), same_state h)

pub raise_when-ok :
    (b : Bool) (e : Error) {u : Unit {0}} {db db' : Database}
    → raise_when b e db ≡ returned u db'
    → (b ≡ false) × (db ≡ db')
raise_when-ok true e h = absurd (err_not_ok h)
raise_when-ok false e h = (refl, same_state h)

pub lift-ok :
    {A : Type 0} (r : Result A) {a : A} {db db' : Database}
    → lift r db ≡ returned a db'
    → (r ≡ ok a) × (db ≡ db')
lift-ok (ok x) h = (ap ok (same_value h), same_state h)
lift-ok (err e) h = absurd (err_not_ok h)

-- A session that returns keeps the property.
abbrev pub Keeps : (P : Database → Type 0) {A : Type 0} → Session A → Type 0
Keeps P {A} m = (db : Database) (a : A) (db' : Database) → m db ≡ ok (a, db') → P db → P db'

module _ (P : Database → Type 0) where
  pub read-Keeps : {A : Type 0} (f : Database → A) → Keeps P (λ db. ok (f db, db))
  read-Keeps f db a db' h k = subst P (same_state h) k

  pub require-Keeps : {A : Type 0} (o : Option A) (e : Error) → Keeps P (require o e)
  require-Keeps o e db a db' h k = subst P (require-ok o e h).1 k

  pub raise_when-Keeps : (b : Bool) (e : Error) → Keeps P (raise_when b e)
  raise_when-Keeps b e db a db' h k = subst P (raise_when-ok b e h).1 k

  pub lift-Keeps : {A : Type 0} (r : Result A) → Keeps P (lift r)
  lift-Keeps r db a db' h k = subst P (lift-ok r h).1 k

  pub modify-Keeps :
      (f : Database → Database) → ((db : Database) → P db → P (f db)) → Keeps P (modify f)
  modify-Keeps f keeps db a db' h k = subst P (same_state h) (keeps db k)

  settle-Keeps :
      {A : Type 0} (db : Database) (r : Result (A × Database))
      → ((a : A) (db' : Database) → r ≡ ok (a, db') → P db → P db')
      → P db
      → P (settle db r).1
  settle-Keeps db (ok (a, db')) keeps k = keeps a db' refl k
  settle-Keeps db (err e) keeps k = k

  -- The tables that stay after the `with` statement, whether it returned or raised.
  pub session-Keeps :
      {A : Type 0} (m : Session A) → Keeps P m → (db : Database) → P db → P (session m db).1
  unfolding session
  session-Keeps m keeps db k = settle-Keeps db (m db) (keeps db) k

module _ (P : Database → Type 0) where
  -- A session that returns keeps the property, and its result has one.
  abbrev pub Ensures : {A : Type 0} → (A → Type 0) → Session A → Type 0
  Ensures {A} Q m =
      (db : Database) (a : A) (db' : Database) → m db ≡ ok (a, db') → P db → P db' × Q a

  pub pure-Keeps : {A : Type 0} (a : A) → Keeps P (pure a)
  pure-Keeps a db b db' h k = subst P (same_state h) k

  pub if-Keeps :
      {A : Type 0} (b : Bool) (m n : Session A)
      → Keeps P m
      → Keeps P n
      → Keeps P (if b then m else n)
  if-Keeps true m n k l = k
  if-Keeps false m n k l = l

  pub bind-Keeps :
      {A B : Type 0} (m : Session A) (f : A → Session B)
      → Keeps P m
      → ((a : A) → Keeps P (f a))
      → Keeps P (m >>= f)
  bind-Keeps m f k l db b db' h p =
      let (a, db₁, e, h₁) = proceed-ok f (m db) h in l a db₁ b db' h₁ (k db a db₁ e p)

  pub bind-Ensures :
      {A B : Type 0} (Q : A → Type 0) (m : Session A) (f : A → Session B)
      → Ensures Q m
      → ((a : A) → Q a → Keeps P (f a))
      → Keeps P (m >>= f)
  bind-Ensures Q m f k l db b db' h p =
      let (a, db₁, e, h₁) = proceed-ok f (m db) h in
      let (p₁, q) = k db a db₁ e p in l a q db₁ b db' h₁ p₁
