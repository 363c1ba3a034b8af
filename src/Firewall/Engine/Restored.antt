-- ===== src/Firewall/Engine/Restored.antt =====
-- What a synchronization that fails leaves behind: the recovery of `sync` in firewall/engine.py.
use net_father.Prelude.{
  ℕ, ◌≡◌, refl, sym, ap, subst, ◌∙◌, Bool, true, false, Option, none, some, List, [], ◌∷◌, ◌++◌,
  ◌⊎◌, inl, inr, if◌then◌else◌, Text, Result, ok, err, Error, err_not_ok, Bool-cases, Result-cases,
}
use net_father.Prelude.Strings.{codes}
use net_father.Models.{Event}
use net_father.Net.Addresses.{IpLibrary}
use net_father.Schedules.Zones.{Zones}
use net_father.Policy.Engine.{given, blocked_ips}
use net_father.Database.{Database}
use net_father.Firewall.Base.{FirewallResult}
use net_father.Firewall.World.{Platform, World, pure, raise, attempt, continue, ◌>>=◌, record_event}
use net_father.Firewall.Backends.{Backend}
use net_father.Firewall.Engine.{
  FirewallConfig, read_state, snapshot, perform, restore, recover, report_recovery, on_error,
  conclude, sync_list, wanted, sync, validate_topology, unprotected, recovery_metadata, unread_text,
  error_metadata,
}
use net_father.Firewall.Engine.Recovery.{Seen, restore-Seen}

module _ {Kernel : Type 0} where
  -- A chain that raised did so at its first step or afterwards.
  continue-err :
      {A B : Type 0} (f : A → World Kernel → Result B × World Kernel) (p : Result A × World Kernel)
      {w' : World Kernel} {e : Error}
      → continue f p ≡ (err e, w')
      → (p ≡ (err e, w'))
        ⊎ ((a : A) × (w₁ : World Kernel) × (p ≡ (ok a, w₁)) × (f a w₁ ≡ (err e, w')))
  continue-err f (ok a, w) h = inr (a, w, refl, h)
  continue-err f (err x, w) {e = e} h = inl (ap (λ q. (err (error_of x (q.0)), q.1)) h)
    where
      error_of : {B : Type 0} → Error → Result B → Error
      error_of x (err y) = y
      error_of x (ok b) = x

  -- The last event is the one of a failed recovery.
  abbrev pub Reported : World Kernel → Type 0
  Reported w' =
      (events : List Event) × (event : Event) × (w'.db.events ≡ events ++ (event ∷ []))
      × (event.event_type ≡ codes "firewall_recovery_error")

module _ {Kernel : Type 0} (platform : Platform Kernel) (lib : IpLibrary) (config : FirewallConfig)
    (backend : Backend) where
  -- Writing the list back ended in an error, of which the last event tells unless its text is empty.
  abbrev pub NotRestored : List Text → World Kernel → Type 0
  NotRestored previous w' =
      (x : Error) × (w : World Kernel) × (w₁ : World Kernel) × (restore platform lib config backend
          previous w
        ≡ (err x, w₁))
      × (w'.kernel ≡ w₁.kernel)
      × ((given (some (platform.message x)) ≡ false) ⊎ Reported w')

  -- What the recovery leaves, given what was read before the write: a state that could not be read
  -- is reported, and a list that was read is seen again, after which nothing touched the kernel,
  -- or was not restored.
  abbrev pub Recovered : Result (List Text) → World Kernel → Type 0
  Recovered (err x) w' = Reported w'
  Recovered (ok previous) w' =
      ((w₁ : World Kernel) × Seen platform lib config backend previous w₁ × (w'.kernel ≡ w₁.kernel))
      ⊎ NotRestored previous w'

  -- The database takes every event.
  abbrev pub Writable : Type 0
  Writable = (db : Database) → platform.writable db ≡ true

  recorded :
      Writable
      → (description metadata : Text) (w : World Kernel)
      → (w' : World Kernel) × (record_event platform
            (codes "firewall_recovery_error")
            description
            (codes "error")
            (some metadata)
            w
          ≡ (ok tt, w'))
        × (w'.kernel ≡ w.kernel)
        × Reported w'
  unfolding record_event
  recorded writes description metadata w =
      rw (writes w.db) (_, refl, refl, (w.db.events, _, refl, refl))

  reported :
      Writable
      → (before : Result (List Text)) (x : Error) (text : Text) (w : World Kernel)
      → (w' : World Kernel) × (report_recovery platform lib config backend before x (some text) w
          ≡ (ok tt, w'))
        × (w'.kernel ≡ w.kernel)
        × ((given (some text) ≡ false) ⊎ Reported w')
  unfolding report_recovery
  reported writes before x text w = elim (Bool-cases (given (some text))) [
    | inl e ↦
        let (w', f, k, r) =
          recorded writes text (recovery_metadata platform lib config backend before x) w in
        (w', rw e f, k, inr r)
    | inr e ↦ (w, rw e refl, refl, inl e)
  ]

  given_unread : (text : Text) → given (some (unread_text platform lib config backend text)) ≡ true
  given_unread text = elim (Bool-cases (given (some text))) [
    | inl e ↦ rw e refl
    | inr e ↦ rw e refl
  ]

  recovered :
      Writable
      → (before : Result (List Text)) (x : Error) (w : World Kernel)
      → (w' : World Kernel) × ((recover platform lib config backend before
              >>= report_recovery platform lib config backend before x)
            w
          ≡ (ok tt, w'))
        × Recovered before w'
  unfolding recover report_recovery
  recovered writes (err y) x w =
      let text = unread_text platform lib config backend (platform.message y) in
      let (w', e, k, r) = reported writes (err y) x text w in
      (
        w',
        e,
        elim r [
          | inl f ↦ absurd (differ (sym (given_unread (platform.message y)) ∙ f))
          | inr report ↦ report
        ],
      )
    where
      differ : true ≡ false → ⊥
      differ f = cc
  recovered writes (ok previous) x w =
      elim (Result-cases (restore platform lib config backend previous w).0) [
        | inl (u, e) ↦
            let w₁ = (restore platform lib config backend previous w).1 in
            (
              w₁,
              rw e refl,
              inl (
                w₁,
                restore-Seen platform lib config backend previous w w₁ (ap (λ r. (r, w₁)) e),
                refl,
              ),
            )
        | inr (y, e) ↦
            let w₁ = (restore platform lib config backend previous w).1 in
            let (w', f, k, r) = reported writes (ok previous) x (platform.message y) w₁ in
            (w', rw e f, inr (y, w, w₁, ap (λ r. (r, w₁)) e, k, r))
      ]

  stored :
      Writable
      → (description metadata : Text) (w : World Kernel)
      → (w' : World Kernel) × (record_event platform
            (codes "firewall_error")
            description
            (codes "error")
            (some metadata)
            w
          ≡ (ok tt, w'))
  unfolding record_event
  stored writes description metadata w = rw (writes w.db) (_, refl)

  -- The `except` block, and the error that is raised again.
  failed-Recovered :
      Writable
      → (requested : List Text) (before : Result (List Text)) (x : Error) (w w' : World Kernel)
      → {e : Error}
      → conclude platform lib config backend requested (some before) (err x) w ≡ (err e, w')
      → Recovered before w'
  unfolding conclude on_error
  failed-Recovered writes requested before x w w' h =
      let (noted, g) = stored writes (platform.message x) (error_metadata platform backend) w in
      let (w₁, f, r) = recovered writes before x noted in
      let raised : (err x, w₁) ≡ (err _, w') =
        ap (continue (λ (_ : Unit {0}). raise x)) (sym f)
        ∙ ap
            (λ q.
              continue (λ (_ : Unit {0}). raise x)
                (continue
                  (λ (_ : Unit {0}).
                    recover platform lib config backend before
                    >>= report_recovery platform lib config backend before x)
                  q))
            (sym g)
        ∙ h in
      subst (Recovered before) (ap (λ p. p.1) raised) r

  conclude-err :
      Writable
      → (requested : List Text) (before : Option (Result (List Text)))
      → (outcome : Result FirewallResult) (w w' : World Kernel) → {e : Error}
      → conclude platform lib config backend requested before outcome w ≡ (err e, w')
      → (x : Error) × (outcome ≡ err x)
  unfolding conclude record_event
  conclude-err writes requested before (ok result) w w' h =
      absurd (err_not_ok (sym (ap (λ p. p.0) (rw (writes w.db) at h))))
  conclude-err writes requested before (err x) w w' h = (x, refl)

  sync_list-Recovered :
      Writable
      → (requested : List Text) (w w' : World Kernel) → {e : Error}
      → config.rollback_on_error ≡ true
      → sync_list platform lib config backend requested true w ≡ (err e, w')
      → (before : Result (List Text)) × (w₀ : World Kernel) × (read_state platform lib config
            backend w
          ≡ (before, w₀))
        × Recovered before w'
  unfolding sync_list snapshot
  sync_list-Recovered writes requested w w' on h =
      let before = (read_state platform lib config backend w).0 in
      let w₀ = (read_state platform lib config backend w).1 in
      let m = perform platform lib config backend (unprotected platform requested) true w₀ in
      let h₁ : conclude platform lib config backend requested (some before) m.0 m.1 ≡ (err _, w') =
        ap
          (λ (b : Bool).
            continue
              (λ before'.
                attempt (perform platform lib config backend (unprotected platform requested) true)
                >>= conclude platform lib config backend requested before')
              ((if b
                  then (attempt (read_state platform lib config backend) >>= (λ r. pure (some r)))
                  else pure none)
                w))
          (sym on)
        ∙ h in
      let (x, f) = conclude-err writes requested (some before) m.0 m.1 w' h₁ in
      (
        before,
        w₀,
        refl,
        failed-Recovered writes requested before x m.1 w' (
            ap (λ o. conclude platform lib config backend requested (some before) o m.1) (sym f)
            ∙ h₁),
      )

  -- A synchronization that is to apply, with recovery switched on and a database that takes every
  -- event, and that raises, either left everything as it was, or had read the state of the firewall
  -- before the write. Where that reading failed, the last event is the one of a failed recovery.
  -- Where it gave a list, the kernel has been seen to hold that very list again and nothing touched
  -- it since, or writing the list back raised, and the last event tells so unless that error has no
  -- text.
  pub sync-Recovered :
      {Zone : Type 0} (zones : Zones Zone) (apply : Option Bool) (when : ℕ) (e : Error)
      (w w' : World Kernel)
      → Writable
      → wanted config apply ≡ true
      → config.rollback_on_error ≡ true
      → sync platform lib config backend zones apply when w ≡ (err e, w')
      → (w' ≡ w)
        ⊎ ((before : Result (List Text)) × (w₀ : World Kernel) × (read_state platform lib config
                backend w
              ≡ (before, w₀))
            × Recovered before w')
  unfolding sync
  sync-Recovered zones apply when e w w' writes should on h =
      let start = if wanted config apply then validate_topology platform config else ok tt in
      let follow : (u : Unit {0}) (v : World Kernel) → Result FirewallResult × World Kernel = λ u v.
        continue
          (λ requested. sync_list platform lib config backend requested (wanted config apply))
          (blocked_ips zones lib v.db when, v) in
      elim (continue-err follow (start, w) h) [
        | inl refused ↦ inl (sym (ap (λ p. p.1) refused))
        | inr (u, w₁, f, h₁) ↦
            elim (continue-err
              (λ requested. sync_list platform lib config backend requested (wanted config apply))
              (blocked_ips zones lib w₁.db when, w₁) h₁) [
                | inl unread ↦ inl (sym (ap (λ p. p.1) unread) ∙ sym (ap (λ p. p.1) f))
                | inr (requested, w₂, g, h₂) ↦
                    let same : w₂ ≡ w = sym (ap (λ p. p.1) g) ∙ sym (ap (λ p. p.1) f) in
                    inr (
                      sync_list-Recovered writes requested w w' on (
                        ap (λ b. sync_list platform lib config backend requested b w) (sym should)
                        ∙ ap (sync_list platform lib config backend requested (wanted config apply))
                            (sym same)
                        ∙ h₂))
              ]
      ]
