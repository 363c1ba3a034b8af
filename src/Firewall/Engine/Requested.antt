-- ===== src/Firewall/Engine/Requested.antt =====
-- Which addresses a synchronization of firewall/engine.py asks the backend to block.
use net_father.Prelude.{
  ℕ, ◌≡◌, refl, ap, ◌∙◌, subst, Bool, true, false, not, ◌&&◌, Option, none, List, In, In-keep,
  contains, ◌↔◌, text_eq_instance, Text, ok, ok_injective, if◌then◌else◌, arith,
}
use net_father.Net.Addresses.{IpLibrary}
use net_father.Schedules.Zones.{Zones}
use net_father.Policy.Engine.{blocked_ips}
use net_father.Firewall.Base.{FirewallResult, local_ip, normalize_local_ips}
use net_father.Firewall.Base.Normal.{normalize_local_ips-IsNormal-In}
use net_father.Firewall.World.{
  Completed, Platform, World, Io, pure, lift, attempt, continue-ok, ◌>>=◌, run_nft,
}
use net_father.Firewall.Backends.{
  Backend, nftables_backend, null_backend, apply_nftables, apply_backend, write_sets, upgrade,
  check_script, load_script, preview, nft_path,
}
use net_father.Firewall.Scripts.{update_script}
use net_father.Firewall.Engine.{
  FirewallConfig, snapshot, verify, perform, sync_list, wanted, sync, validate_topology,
  unprotected, protected_ips,
}
use net_father.Firewall.Engine.Recovery.{conclude-ok}

module _ {Kernel : Type 0} where
  -- What the computation returns, if it returns, satisfies `P`.
  abbrev Returns : {A : Type 0} → (A → Type 0) → Io Kernel A → Type 0
  Returns {A = A} P m = (r : A) (w w' : World Kernel) → m w ≡ (ok r, w') → P r

  >>=-Returns :
      {A B : Type 0} (P : B → Type 0) (m : Io Kernel A) (f : A → Io Kernel B)
      → ((a : A) (w w₁ : World Kernel) → m w ≡ (ok a, w₁) → Returns P (f a))
      → Returns P (m >>= f)
  >>=-Returns P m f k r w w' h = let (a, w₁, e, h₁) = continue-ok f (m w) h in k a w w₁ e r w₁ w' h₁

  pure-Returns : {A : Type 0} (P : A → Type 0) (a : A) → P a → Returns P (pure a)
  pure-Returns P a p r w w' h = subst P (ok_injective (ap (λ q. q.0) h)) p

  if-Returns :
      {A : Type 0} (P : A → Type 0) (b : Bool) (m n : Io Kernel A)
      → Returns P m
      → Returns P n
      → Returns P (if b then m else n)
  if-Returns P true m n p q = p
  if-Returns P false m n p q = q

module _ {Kernel : Type 0} (platform : Platform Kernel) (lib : IpLibrary) where
  -- The result names the normal form of the list that the backend was given.
  abbrev Names : List Text → FirewallResult → Type 0
  Names ips r = normalize_local_ips lib ips ≡ ok r.blocked_ips

  write_sets-Names :
      (nft : Text) (vs ips : List Text) (script : Text) (existing : Completed)
      → normalize_local_ips lib vs ≡ ok ips
      → Returns (Names vs) (write_sets platform lib nft ips script existing)
  unfolding write_sets
  write_sets-Names nft vs ips script existing e =
      if-Returns (Names vs) (not existing.succeeded) _ _
        (>>=-Returns (Names vs) (load_script platform nft script) _
          (λ _ _ _ _. pure-Returns (Names vs) _ e))
        (>>=-Returns (Names vs) (upgrade platform nft existing.stdout) _ (λ _ _ _ _.
          >>=-Returns (Names vs) (check_script platform nft (update_script ips)) _ (λ _ _ _ _.
            >>=-Returns (Names vs) (load_script platform nft (update_script ips)) _
              (λ _ _ _ _. pure-Returns (Names vs) _ e))))

  apply_nftables-Names :
      (vs : List Text) (should_apply : Bool)
      → Returns (Names vs) (apply_nftables platform lib vs should_apply)
  unfolding apply_nftables
  apply_nftables-Names vs should_apply =
      >>=-Returns (Names vs) (lift (normalize_local_ips lib vs)) _ (λ ips w w₁ e.
        let n : normalize_local_ips lib vs ≡ ok ips = ap (λ q. q.0) e in
        >>=-Returns (Names vs) (lift (preview platform lib nftables_backend ips)) _ (λ script _ _ _.
          if-Returns (Names vs) (not should_apply) _ _ (pure-Returns (Names vs) _ n) (
            >>=-Returns (Names vs) (nft_path platform) _ (λ nft _ _ _.
              >>=-Returns (Names vs) (check_script platform nft _) _ (λ _ _ _ _.
                >>=-Returns (Names vs) (run_nft platform _ none) _
                  (λ existing _ _ _. write_sets-Names nft vs ips script existing n))))))

  apply_backend-Names :
      (backend : Backend) (vs : List Text) (should_apply : Bool)
      → Returns (Names vs) (apply_backend platform lib backend vs should_apply)
  unfolding apply_backend
  apply_backend-Names nftables_backend vs should_apply = apply_nftables-Names vs should_apply
  apply_backend-Names null_backend vs should_apply =
      >>=-Returns (Names vs) (lift (normalize_local_ips lib vs)) _
        (λ ips w w₁ e. pure-Returns (Names vs) _ (ap (λ q. q.0) e))

  -- The address is the normal text of one that the policy lists and that is none of the protected
  -- texts as it stands there.
  abbrev pub Allowed : List Text → Text → Type 0
  Allowed requested t =
      (v : Text) × In v requested
      × (contains v (protected_ips platform) ≡ false)
      × (local_ip lib v ≡ ok t)

  normal-Allowed :
      (requested ips : List Text)
      → normalize_local_ips lib (unprotected platform requested) ≡ ok ips
      → (t : Text) → In t ips ↔ Allowed requested t
  unfolding unprotected
  normal-Allowed requested ips h t =
      let allowed = λ (ip : Text). not (contains ip (protected_ips platform)) in
      let (written, of_written) = (normalize_local_ips-IsNormal-In lib _ h).1 t in
      (
        (λ m.
            let (v, i, e) = written m in
            let (j, k) = (In-keep allowed v requested).0 i in (v, j, ground arith, e)),
        (λ (v, i, k, e). of_written (v, (In-keep allowed v requested).1 (i, rw k refl), e)),
      )

  module _ (config : FirewallConfig) (backend : Backend) where
    perform-Names :
        (vs : List Text) (should_apply : Bool)
        → Returns (Names vs) (perform platform lib config backend vs should_apply)
    unfolding perform
    perform-Names vs should_apply =
        >>=-Returns (Names vs) (apply_backend platform lib backend vs should_apply) _
          (λ result w w₁ e.
            let n = apply_backend-Names backend vs should_apply result w w₁ e in
            if-Returns (Names vs) (should_apply && result.applied) _ _
              (>>=-Returns (Names vs) (verify platform lib config backend vs) _
                (λ _ _ _ _. pure-Returns (Names vs) result n))
              (pure-Returns (Names vs) result n))

    sync_list-Names :
        (requested : List Text) (should_apply : Bool)
        → Returns
            (Names (unprotected platform requested))
            (sync_list platform lib config backend requested should_apply)
    unfolding sync_list
    sync_list-Names requested should_apply =
        let vs = unprotected platform requested in
        let m = perform platform lib config backend vs should_apply in
        >>=-Returns (Names vs) (snapshot platform lib config backend should_apply) _
          (λ before _ _ _. >>=-Returns (Names vs) (attempt m) _ (λ outcome v v₁ e r w w' h.
            let (g, _) =
              conclude-ok platform lib config backend requested before outcome r w w' h in
            perform-Names vs should_apply r v (m v).1
              (ap (λ o. (o, (m v).1)) (ok_injective (ap (λ q. q.0) e) ∙ g))))

    -- Where a synchronization returns, applied or not and for either backend, the addresses that its
    -- result names as blocked are exactly the normal texts of those addresses of the policy's list
    -- that are none of the protected texts as they stand there, before normalization.
    pub sync-Allowed :
        {Zone : Type 0} (zones : Zones Zone) (apply : Option Bool) (when : ℕ) (r : FirewallResult)
        (w w' : World Kernel)
        → sync platform lib config backend zones apply when w ≡ (ok r, w')
        → (requested : List Text) × (blocked_ips zones lib w.db when ≡ ok requested)
          × ((t : Text) → In t r.blocked_ips ↔ Allowed requested t)
    unfolding sync
    sync-Allowed zones apply when r w w' h =
        let (u, w₀, e, h₁) =
          continue-ok _
            (lift (if wanted config apply then validate_topology platform config else ok tt) w) h in
        let (requested, w₁, f, h₂) = continue-ok _ (blocked_ips zones lib w₀.db when, w₀) h₁ in
        (
          requested,
          ap (λ v. blocked_ips zones lib v.db when) (ap (λ p. p.1) e) ∙ ap (λ p. p.0) f,
          normal-Allowed requested r.blocked_ips
              (sync_list-Names requested (wanted config apply) r w₁ w' h₂),
        )
