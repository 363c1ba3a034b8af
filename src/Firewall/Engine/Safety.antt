-- ===== src/Firewall/Engine/Safety.antt =====
-- A run that is not to apply anything leaves the kernel alone.
use net_father.Prelude.{
  ℕ, ◌≡◌, refl, ◌∙◌, Bool, Bool-cases, inl, inr, false, Option, none, some, List, text_eq_instance,
  Text, Result, ok, err,
}
use net_father.Net.Addresses.{IpLibrary}
use net_father.Schedules.Zones.{Zones}
use net_father.Policy.Engine.{blocked_ips}
use net_father.Firewall.Base.{FirewallResult, normalize_local_ips}
use net_father.Firewall.World.{
  attempt, continue, pure, lift, Platform, World, Io, ◌>>=◌, record_event,
}
use net_father.Firewall.Backends.{
  Backend, nftables_backend, null_backend, preview, apply_nftables, apply_backend, rollback_backend,
}
use net_father.Firewall.Engine.{
  FirewallConfig, snapshot, perform, on_error, conclude, sync_list, wanted, sync, rollback,
  unprotected, rollback_metadata,
}
use net_father.Prelude.Strings.{codes}

module _ {Kernel : Type 0} (platform : Platform Kernel) (lib : IpLibrary) where
  -- The kernel stays as it is, whatever the outcome.
  abbrev pub KeepsKernel : {A : Type 0} → Io Kernel A → Type 0
  KeepsKernel m = (w : World Kernel) → (m w).1.kernel ≡ w.kernel

  continue-keeps :
      {A B : Type 0} (f : A → Io Kernel B) (p : Result A × World Kernel)
      → ((a : A) → KeepsKernel (f a))
      → (continue f p).1.kernel ≡ p.1.kernel
  continue-keeps f (ok a, w) k = k a w
  continue-keeps f (err e, w) k = refl

  >>=-KeepsKernel :
      {A B : Type 0} (m : Io Kernel A) (f : A → Io Kernel B)
      → KeepsKernel m
      → ((a : A) → KeepsKernel (f a))
      → KeepsKernel (m >>= f)
  >>=-KeepsKernel m f k l w = continue-keeps f (m w) l ∙ k w

  pub record_event-KeepsKernel :
      (event_type description severity : Text) (metadata : Option Text)
      → KeepsKernel (record_event platform event_type description severity metadata)
  unfolding record_event
  record_event-KeepsKernel event_type description severity metadata w =
      elim (Bool-cases (platform.writable w.db)) [ inl e ↦ rw e refl | inr e ↦ rw e refl ]

  apply_backend-KeepsKernel :
      (backend : Backend) (ips : List Text)
      → KeepsKernel (apply_backend platform lib backend ips false)
  unfolding apply_backend apply_nftables
  apply_backend-KeepsKernel nftables_backend ips =
      >>=-KeepsKernel (lift (normalize_local_ips lib ips)) _ (λ w. refl)
        (λ ips'.
          >>=-KeepsKernel (lift (preview platform lib nftables_backend ips')) _ (λ w. refl)
            (λ script w. refl))
  apply_backend-KeepsKernel null_backend ips =
      >>=-KeepsKernel (lift (normalize_local_ips lib ips)) _ (λ w. refl) (λ ips' w. refl)

  module _ (config : FirewallConfig) (backend : Backend) where
    perform-KeepsKernel :
        (ips : List Text) → KeepsKernel (perform platform lib config backend ips false)
    unfolding perform
    perform-KeepsKernel ips =
        >>=-KeepsKernel (apply_backend platform lib backend ips false) _
          (apply_backend-KeepsKernel backend ips) (λ result w. refl)

    conclude-KeepsKernel :
        (requested : List Text) (outcome : Result FirewallResult)
        → KeepsKernel (conclude platform lib config backend requested none outcome)
    unfolding conclude on_error record_event
    conclude-KeepsKernel requested (ok result) w = elim (Bool-cases (platform.writable w.db)) [
      | inl e ↦ rw e refl
      | inr e ↦ rw e refl
    ]
    conclude-KeepsKernel requested (err x) w = elim (Bool-cases (platform.writable w.db)) [
      | inl e ↦ rw e refl
      | inr e ↦ rw e refl
    ]

    dry_sync_list-KeepsKernel :
        (requested : List Text)
        → KeepsKernel (sync_list platform lib config backend requested false)
    unfolding sync_list snapshot
    dry_sync_list-KeepsKernel requested =
        >>=-KeepsKernel
          (attempt (perform platform lib config backend (unprotected platform requested) false))
          (conclude platform lib config backend requested none)
          (perform-KeepsKernel (unprotected platform requested)) (conclude-KeepsKernel requested)

    dry_rollback-KeepsKernel : KeepsKernel (rollback platform lib config backend false)
    unfolding rollback rollback_backend
    dry_rollback-KeepsKernel =
        >>=-KeepsKernel (rollback_backend platform backend false) _ (by_backend backend) (λ result.
          >>=-KeepsKernel
            (record_event platform (codes "firewall_rollback") result.detail (codes "info")
              (some (rollback_metadata platform lib config backend result)))
            (λ _. pure result) (record_event-KeepsKernel _ _ _ _) (λ u w. refl))
      where
        by_backend : (b : Backend) → KeepsKernel (rollback_backend platform b false)
        by_backend nftables_backend w = refl
        by_backend null_backend w = refl

    -- A synchronization that is not to apply anything leaves the kernel alone, whether it returns or
    -- raises, for either backend, and so does a rollback that is not to apply.
    pub sync-KeepsKernel :
        {Zone : Type 0} (zones : Zones Zone) (apply : Option Bool) (when : ℕ)
        → wanted config apply ≡ false
        → KeepsKernel (sync platform lib config backend zones apply when)
          × KeepsKernel (rollback platform lib config backend false)
    unfolding sync
    sync-KeepsKernel zones apply when dry = (
      rw dry (
          >>=-KeepsKernel (λ w. (blocked_ips zones lib w.db when, w))
            (λ requested. sync_list platform lib config backend requested false) (λ w. refl)
            dry_sync_list-KeepsKernel),
      dry_rollback-KeepsKernel,
    )
