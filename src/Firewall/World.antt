-- ===== src/Firewall/World.antt =====
-- What the firewall code runs in: the kernel's tables, which only the program `nft` sees and
-- changes, and the database, which gets the audit events. An exception leaves both as they are at
-- the moment it is raised. `nft` and the JSON reader are not part of the repository.
use net_father.Prelude.{
  Bool, true, false, Option, none, List, take, Text, Result, ok, err, Error, database_error,
  if◌then◌else◌, ◌≡◌, refl, ap,
}
use net_father.Database.{Database}
use net_father.Database.Session.{add_event}
use net_father.Firewall.Json.{Json, Fields}

-- `subprocess.CompletedProcess`; the text of stderr goes into messages only.
pub record Completed : Type 0 where
  pub succeeded : Bool
  pub stdout : Text

-- What the code reads of the machine and of Python's library.
pub record Platform (Kernel : Type 0) : Type 0 where
  -- `shutil.which("nft")`
  pub which : Option Text
  -- `subprocess.run`: an error is TimeoutExpired after the ten seconds, or OSError.
  pub run : List Text → Option Text → Kernel → Result Completed × Kernel
  -- `json.loads`, `none` where the text is no JSON, and `json.dumps`.
  pub loads : Text → Option Json
  pub dumps : Fields → Text
  -- Whether the database takes a row where its tables are these.
  pub writable : Database → Bool
  -- `str(exc)`
  pub message : Error → Text
  -- `utc_now().isoformat()`
  pub now : Text
  -- What network/interface.py reports.
  pub local_ipv4 : List Text
  pub local_ipv6 : List Text
  pub local_ip : Option Text
  pub gateway : Option Text
  -- The two files under /proc/sys/net; `none` is OSError.
  pub ipv4_forward : Option Text
  pub ipv6_forward : Option Text

pub record World (Kernel : Type 0) : Type 0 where
  pub kernel : Kernel
  pub db : Database

abbrev pub Io : Type 0 → Type 0 → Type 0
Io Kernel A = World Kernel → Result A × World Kernel

module _ {Kernel : Type 0} where
  abbrev pub pure : {A : Type 0} → A → Io Kernel A
  pure a w = (ok a, w)

  abbrev pub raise : {A : Type 0} → Error → Io Kernel A
  raise e w = (err e, w)

  abbrev pub lift : {A : Type 0} → Result A → Io Kernel A
  lift r w = (r, w)

  -- What follows a step, given how the step ended.
  abbrev pub continue :
      {A B : Type 0} → (A → Io Kernel B) → Result A × World Kernel → Result B × World Kernel
  continue f (ok a, w) = f a w
  continue f (err e, w) = (err e, w)

  infixl 5 ◌>>=◌ ◌>>◌
  abbrev pub ◌>>=◌ : {A B : Type 0} → Io Kernel A → (A → Io Kernel B) → Io Kernel B
  ◌>>=◌ m f w = continue f (m w)

  abbrev pub ◌>>◌ : {B : Type 0} → Io Kernel (Unit {0}) → Io Kernel B → Io Kernel B
  m >> k = m >>= λ _. k

  -- `try: m` with what follows in either case.
  abbrev pub attempt : {A : Type 0} → Io Kernel A → Io Kernel (Result A)
  attempt m w = let (r, w') = m w in (ok r, w')

  abbrev pub raise_unless : Bool → Error → Io Kernel (Unit {0})
  raise_unless true e = pure tt
  raise_unless false e = raise e

  -- A chain that returns returned at its first step.
  pub continue-ok :
      {A B : Type 0} (f : A → Io Kernel B) (p : Result A × World Kernel) {w' : World Kernel} {b : B}
      → continue f p ≡ (ok b, w')
      → (a : A) × (w₁ : World Kernel) × (p ≡ (ok a, w₁)) × (f a w₁ ≡ (ok b, w'))
  continue-ok f (ok a, w) h = (a, w, refl, h)
  continue-ok f (err x, w) {b = b} h = absurd (failed (ap (λ p. p.0) h))
    where
      failed : err x ≡ ok b → ⊥
      failed e = cc

  module _ (platform : Platform Kernel) where
    -- `EventManager.record` of manager/event_manager.py: the texts are cut to their columns, and a
    -- session that cannot be committed raises DatabaseError and leaves the tables.
    unfoldable pub record_event : Text → Text → Text → Option Text → Io Kernel (Unit {0})
    record_event event_type description severity metadata_json w =
        if platform.writable w.db
        then (
          ok tt,
          record w {
            db =
                add_event (take 32 event_type) (take 512 description) none (take 16 severity)
                  metadata_json w.db;
          },
        )
        else (err database_error, w)

    -- `_run` of firewall/backends.py
    unfoldable pub run_nft : List Text → Option Text → Io Kernel Completed
    run_nft args input_text w =
        let (done, kernel) = platform.run args input_text w.kernel in
        (done, record w { kernel = kernel })
