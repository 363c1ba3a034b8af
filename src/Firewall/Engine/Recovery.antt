-- ===== src/Firewall/Engine/Recovery.antt =====
-- What the kernel has been seen to hold when a synchronization or a recovery is done.
use net_father.Prelude.{
  ℕ, ◌≡◌, refl, sym, ap, ◌∙◌, subst, Bool, true, false, Option, List, [], ◌∷◌, if◌then◌else◌,
  eq_iff, text_eq_instance, Text, Result, ok, err, Error, ok_injective, err_not_ok, Bool-cases,
  Option-cases, ◌≢◌, runtime_error, inl, inr, arith, database_error,
}
use net_father.Firewall.Engine.Safety.{record_event-KeepsKernel}
use net_father.Prelude.Strings.{codes}
use net_father.Net.Addresses.{IpLibrary}
use net_father.Schedules.Zones.{Zones}
use net_father.Policy.Engine.{blocked_ips}
use net_father.Firewall.Base.{FirewallResult, normalize_local_ips}
use net_father.Firewall.World.{
  Platform, World, pure, raise, raise_unless, lift, attempt, continue-ok, ◌>>=◌, record_event,
}
use net_father.Firewall.Backends.{Backend, null_backend, apply_backend, read_blocked_ips, nft_path}
use net_father.Firewall.Engine.{
  FirewallConfig, same_texts, read_state, snapshot, verify, perform, restore, conclude, sync_list,
  wanted, sync, validate_topology, unprotected, ip_forwarding_enabled, detect_drift,
}

pub same_texts-eq : (ss ts : List Text) → same_texts ss ts ≡ true → ss ≡ ts
unfolding same_texts
same_texts-eq [] [] h = refl
same_texts-eq [] (t ∷ ts) h = cc
same_texts-eq (s ∷ ss) [] h = cc
same_texts-eq (s ∷ ss) (t ∷ ts) h = ground (arith, same_texts-eq ss ts, eq_iff s t)

module _ {Kernel : Type 0} where
  raise_unless-ok :
      (b : Bool) (e : Error) {w w' : World Kernel}
      → raise_unless b e w ≡ (ok tt, w')
      → (b ≡ true) × (w ≡ w')
  raise_unless-ok true e h = (refl, ap (λ p. p.1) h)
  raise_unless-ok false e h = absurd (err_not_ok (ap (λ p. p.0) h))

module _ {Kernel : Type 0} (platform : Platform Kernel) (lib : IpLibrary) (config : FirewallConfig)
    (backend : Backend) where
  -- The backend was read in some state of the world, after which the world is `w'`, and what it
  -- held has this normal form.
  abbrev pub Seen : List Text → World Kernel → Type 0
  Seen ips w' = (w : World Kernel) × (read_state platform lib config backend w ≡ (ok ips, w'))

  checked-Seen :
      (expected : List Text) (w : World Kernel) {w' : World Kernel}
      → (read_state platform lib config backend >>= λ actual.
            raise_unless (same_texts actual expected) runtime_error)
          w
        ≡ (ok tt, w')
      → Seen expected w'
  checked-Seen expected w {w'} h =
      let (actual, w₁, e, h₁) = continue-ok _ (read_state platform lib config backend w) h in
      let (same, f) = raise_unless-ok (same_texts actual expected) runtime_error h₁ in
      (
        w,
        e
            ∙ ap (λ ips. (ok ips, w₁)) (same_texts-eq actual expected same)
            ∙ ap (λ v. (ok expected, v)) f,
      )

  verify-Seen :
      (blocked : List Text) (w : World Kernel) {w' : World Kernel}
      → verify platform lib config backend blocked w ≡ (ok tt, w')
      → (ips : List Text) × (normalize_local_ips lib blocked ≡ ok ips) × Seen ips w'
  unfolding verify
  verify-Seen blocked w h =
      let (ips, w₁, e, h₁) = continue-ok _ (lift (normalize_local_ips lib blocked) w) h in
      (ips, ap (λ p. p.0) e, checked-Seen ips w₁ h₁)

  -- When restoring a list returns, the kernel has last been seen to hold exactly that list.
  pub restore-Seen :
      (previous : List Text) (w w' : World Kernel)
      → restore platform lib config backend previous w ≡ (ok tt, w')
      → Seen previous w'
  unfolding restore
  restore-Seen previous w w' h =
      let (current, w₁, e, h₁) = continue-ok _ (read_state platform lib config backend w) h in
      elim (Bool-cases (same_texts current previous)) [
        | inl same ↦ (
          w,
          e
              ∙ ap (λ ips. (ok ips, w₁)) (same_texts-eq current previous same)
              ∙ ap (λ v. (ok previous, v)) (ap (λ p. p.1) (rw same at h₁)),
        )
        | inr differs ↦
            let (result, w₂, f, h₂) =
              continue-ok _ (apply_backend platform lib backend previous true w₁)
                (rw differs at h₁) in
            checked-Seen previous w₂ h₂
      ]

  perform-Seen :
      (blocked : List Text) (should_apply : Bool) (result : FirewallResult) (w w' : World Kernel)
      → perform platform lib config backend blocked should_apply w ≡ (ok result, w')
      → result.applied ≡ true
      → should_apply ≡ true
      → (ips : List Text) × (normalize_local_ips lib blocked ≡ ok ips) × Seen ips w'
  unfolding perform
  perform-Seen blocked should_apply result w w' h applied should =
      let (r, w₁, e, h₁) =
        continue-ok _ (apply_backend platform lib backend blocked should_apply w) h in
      elim (Bool-cases r.applied) [
        | inl on ↦
            let (u, w₂, f, h₂) =
              continue-ok (λ _. pure r) (verify platform lib config backend blocked w₁)
                (rw (should, on) at h₁) in
            let (ips, n, seen) = verify-Seen blocked w₁ f in
            (ips, n, subst (Seen ips) (ap (λ p. p.1) h₂) seen)
        | inr off ↦
            let same : r ≡ result = ok_injective (ap (λ p. p.0) (rw (should, off) at h₁)) in
            absurd (contradiction (sym off ∙ ap (λ x. x.applied) same ∙ applied))
      ]
    where
      contradiction : false ≡ true → ⊥
      contradiction e = cc

  pub conclude-ok :
      (requested : List Text) (before : Option (Result (List Text)))
      (outcome : Result FirewallResult) (r : FirewallResult) (w w' : World Kernel)
      → conclude platform lib config backend requested before outcome w ≡ (ok r, w')
      → (outcome ≡ ok r) × (w'.kernel ≡ w.kernel)
  unfolding conclude
  conclude-ok requested before (ok result) r w w' h =
      let (u, w₁, f, h₁) = continue-ok (λ _. pure result) _ h in
      (
        ap ok (ok_injective (ap (λ p. p.0) h₁)),
        sym (ap (λ p. p.1.kernel) h₁)
            ∙ sym (ap (λ p. p.1.kernel) f)
            ∙ record_event-KeepsKernel platform lib _ _ _ _ w,
      )
  conclude-ok requested before (err e) r w w' h =
      let (u, w₁, f, h₁) = continue-ok (λ _. raise e) _ h in absurd (err_not_ok (ap (λ p. p.0) h₁))

  sync_list-Seen :
      (requested : List Text) (should_apply : Bool) (r : FirewallResult) (w w' : World Kernel)
      → sync_list platform lib config backend requested should_apply w ≡ (ok r, w')
      → r.applied ≡ true
      → should_apply ≡ true
      → (ips : List Text) × (normalize_local_ips lib (unprotected platform requested) ≡ ok ips)
        × (w₁ : World Kernel) × Seen ips w₁
        × (w'.kernel ≡ w₁.kernel)
  unfolding sync_list
  sync_list-Seen requested should_apply r w w' h applied should =
      let blocked = unprotected platform requested in
      let (before, w₁, e, h₁) =
        continue-ok _ (snapshot platform lib config backend should_apply w) h in
      let (outcome, w₂, f, h₂) =
        continue-ok (conclude platform lib config backend requested before)
          (attempt (perform platform lib config backend blocked should_apply) w₁) h₁ in
      let (g, k) = conclude-ok requested before outcome r w₂ w' h₂ in
      let first = ok_injective (ap (λ p. p.0) f) in
      let performed : perform platform lib config backend blocked should_apply w₁ ≡ (ok r, w₂) =
        ap (λ x. (x, (perform platform lib config backend blocked should_apply w₁).1)) (first ∙ g)
        ∙ ap (λ v. (ok r, v)) (ap (λ p. p.1) f) in
      let (ips, n, seen) = perform-Seen blocked should_apply r w₁ w₂ performed applied should in
      (ips, n, w₂, seen, k)

  -- The topology is not one without enforcement, and a gateway forwards.
  pub record MayEnforce : Type 0 where
    pub verified : config.enforcement_topology ≢ codes "unverified"
    pub no_host : config.enforcement_topology ≢ codes "host"
    pub forwards :
        config.enforcement_topology ≡ codes "gateway" → ip_forwarding_enabled platform ≡ true

  topology_lem : (u : Unit {0}) → validate_topology platform config ≡ ok u → MayEnforce
  unfolding validate_topology
  topology_lem u h =
      let t = config.enforcement_topology in
      record {
        verified = λ e. let b = (eq_iff t (codes "unverified")).1 e in ground arith;
        no_host = λ e. let b = (eq_iff t (codes "host")).1 e in ground arith;
        forwards = λ e. let b = (eq_iff t (codes "gateway")).1 e in ground arith;
      }

  -- A synchronization that is to apply and reports that it did started from a topology that may
  -- enforce, and after its last look the kernel held exactly the normal form of what the policy
  -- blocks without the protected addresses; nothing touched the kernel after that look.
  pub sync-Seen :
      {Zone : Type 0} (zones : Zones Zone) (apply : Option Bool) (when : ℕ) (r : FirewallResult)
      (w w' : World Kernel)
      → sync platform lib config backend zones apply when w ≡ (ok r, w')
      → wanted config apply ≡ true
      → r.applied ≡ true
      → MayEnforce
        × (requested : List Text) × (blocked_ips zones lib w.db when ≡ ok requested)
        × (ips : List Text) × (normalize_local_ips lib (unprotected platform requested) ≡ ok ips)
        × (w₁ : World Kernel) × Seen ips w₁
        × (w'.kernel ≡ w₁.kernel)
  unfolding sync
  sync-Seen zones apply when r w w' h should applied =
      let (u, w₀, e, h₁) =
        continue-ok _
          (lift (if wanted config apply then validate_topology platform config else ok tt) w) h in
      let (requested, w₁, f, h₂) = continue-ok _ (blocked_ips zones lib w₀.db when, w₀) h₁ in
      let same : w ≡ w₀ = ap (λ p. p.1) e in
      let (ips, n, w₂, seen, kernel) =
        sync_list-Seen requested (wanted config apply) r w₁ w' h₂ applied should in
      (
        topology_lem u (rw should at (ap (λ p. p.0) e)),
        requested,
        ap (λ v. blocked_ips zones lib v.db when) same ∙ ap (λ p. p.0) f,
        ips,
        n,
        w₂,
        seen,
        kernel,
      )

-- With the backend that does nothing, every drift check of a policy whose list can be normalized
-- reports a drift, since that backend's state can never be read, or raises DatabaseError where the
-- event cannot be stored.
pub detect_drift-null :
    {Kernel Zone : Type 0} (platform : Platform Kernel) (lib : IpLibrary) (config : FirewallConfig)
    (zones : Zones Zone) (when : ℕ) (w : World Kernel) {requested expected : List Text}
    → blocked_ips zones lib w.db when ≡ ok requested
    → normalize_local_ips lib (unprotected platform requested) ≡ ok expected
    → (detect_drift platform lib config null_backend zones when w).0
      ≡ (if platform.writable w.db then ok true else err database_error)
unfolding detect_drift read_blocked_ips nft_path record_event
detect_drift-null platform lib config zones when w h k = elim (Option-cases platform.which) [
  | inl e ↦ elim (Bool-cases (platform.writable w.db)) [
    | inl f ↦ rw (h, k, e, f) refl
    | inr f ↦ rw (h, k, e, f) refl
  ]
  | inr (nft, e) ↦ elim (Bool-cases (platform.writable w.db)) [
    | inl f ↦ rw (h, k, e, f) refl
    | inr f ↦ rw (h, k, e, f) refl
  ]
]
