-- ===== src/Firewall/Backends.antt =====
-- firewall/backends.py: the nftables backend, the backend that does nothing, and their choice.
use net_father.Prelude.{
  Bool, true, false, not, ◌&&◌, ◌||◌, Option, none, some, List, [], ◌∷◌, ◌++◌, ◌==◌,
  text_eq_instance, if◌then◌else◌, Text, Result, ok, err, or_raise, value_error, attribute_error,
  runtime_error,
}
use net_father.Prelude.Strings.{codes, strip, lower, has_part, replace_first}
use net_father.Net.Addresses.{IpLibrary}
use net_father.Firewall.Base.{FirewallResult, normalize_local_ips}
use net_father.Firewall.Json.{Fields, get_is, set_objects, items_of, elements}
use net_father.Firewall.Scripts.{
  table, ruleset_text, upgrade_script, update_script, rollback_script, check_args, load_args,
  list_table_args, list_set_args,
}
use net_father.Firewall.World.{
  Completed, Platform, Io, pure, lift, ◌>>=◌, ◌>>◌, raise_unless, run_nft,
}

pub data Backend : Type 0 where
  nftables_backend null_backend : Backend

abbrev pub backend_name : Backend → Text
backend_name nftables_backend = codes "nftables"
backend_name null_backend = codes "none"

-- The attribute `table`, which the base class and the null backend do not have.
abbrev pub backend_table : Backend → Option Text
backend_table nftables_backend = some (codes "netfather")
backend_table null_backend = none

unfoldable pub get_firewall_backend : Text → Result Backend
get_firewall_backend name =
    let normalized = lower (strip name) in
    if normalized == codes "none"
    then ok null_backend
    else if normalized == codes "auto" || normalized == codes "nftables"
    then ok nftables_backend
    else err value_error

-- `if len(set_objects) != 1: raise`
abbrev pub the_one : List Fields → Result Fields
the_one (fields ∷ []) = ok fields
the_one _ = err runtime_error

module _ {Kernel : Type 0} (platform : Platform Kernel) where
  unfoldable pub nft_path : Io Kernel Text
  nft_path = lift (or_raise platform.which runtime_error)

  -- One round of the loop over the two sets.
  unfoldable pub read_set : Text → Text → Text → Io Kernel (List Text)
  read_set nft owner set_name = do
    result ← run_nft platform (list_set_args nft owner set_name) none
    raise_unless result.succeeded runtime_error
    payload ← lift (or_raise (platform.loads result.stdout) runtime_error)
    items ← lift (items_of (codes "nftables") payload)
    set_object ← lift (the_one (set_objects (codes "set") items))
    raise_unless
        (get_is (codes "family") (codes "inet") set_object
          && (get_is (codes "table") owner set_object && get_is (codes "name") set_name set_object))
        runtime_error
    lift (elements (codes "elem") set_object)

  -- `nft -c -f -`, and its failure raised.
  unfoldable pub check_script : Text → Text → Io Kernel (Unit {0})
  check_script nft script = do
    checked ← run_nft platform (check_args nft) (some script)
    raise_unless checked.succeeded runtime_error

  -- `nft -f -`, and its failure raised.
  unfoldable pub load_script : Text → Text → Io Kernel (Unit {0})
  load_script nft script = do
    result ← run_nft platform (load_args nft) (some script)
    raise_unless result.succeeded runtime_error

  -- A table without the second set gets it.
  unfoldable pub upgrade : Text → Text → Io Kernel (Unit {0})
  upgrade nft existing =
      if has_part existing (codes "set blocked6")
      then pure tt
      else (check_script nft upgrade_script >> load_script nft upgrade_script)

  module _ (lib : IpLibrary) where
    unfoldable pub read_blocked_ips : Backend → Io Kernel (List Text)
    read_blocked_ips backend = do
      nft ← nft_path
      owner ← lift (or_raise (backend_table backend) attribute_error)
      ipv4 ← read_set nft owner (codes "blocked4")
      ipv6 ← read_set nft owner (codes "blocked6")
      lift (normalize_local_ips lib (ipv4 ++ ipv6))

    unfoldable pub preview : Backend → List Text → Result Text
    preview nftables_backend blocked_ips = elim (normalize_local_ips lib blocked_ips) [
      | ok ips ↦ ok (ruleset_text ips)
      | err e ↦ err e
    ]
    preview null_backend blocked_ips = ok (codes "Firewall enforcement disabled")

    abbrev applied_result : List Text → Text → Text → FirewallResult
    applied_result ips detail script = record {
      backend = codes "nftables";
      applied = true;
      blocked_ips = ips;
      detail = detail;
      preview = script;
    }

    -- What `apply` does with the existing table, or without one.
    unfoldable pub write_sets : Text → List Text → Text → Completed → Io Kernel FirewallResult
    write_sets nft ips script existing =
        if not existing.succeeded
        then (do
          load_script nft script
          pure (applied_result ips (codes "NetFather nftables table created") script))
        else (do
          upgrade nft existing.stdout
          check_script nft (update_script ips)
          load_script nft (update_script ips)
          pure (
              applied_result ips (codes "NetFather nftables set updated atomically")
                (update_script ips)))

    unfoldable pub apply_nftables : List Text → Bool → Io Kernel FirewallResult
    apply_nftables blocked_ips apply = do
      ips ← lift (normalize_local_ips lib blocked_ips)
      script ← lift (preview nftables_backend ips)
      if not apply
          then pure (record {
            backend = codes "nftables";
            applied = false;
            blocked_ips = ips;
            detail = codes "dry-run";
            preview = script;
          })
          else (do
            nft ← nft_path
            check_script nft (
                replace_first (codes "table inet " ++ table) (codes "table inet netfather_check")
                  script)
            existing ← run_nft platform (list_table_args nft) none
            write_sets nft ips script existing)

    -- `apply` of the backend's class.
    unfoldable pub apply_backend : Backend → List Text → Bool → Io Kernel FirewallResult
    apply_backend nftables_backend blocked_ips apply = apply_nftables blocked_ips apply
    apply_backend null_backend blocked_ips apply = do
      ips ← lift (normalize_local_ips lib blocked_ips)
      pure (record {
        backend = codes "none";
        applied = false;
        blocked_ips = ips;
        detail = codes "disabled";
        preview = [];
      })

  unfoldable pub rollback_backend : Backend → Bool → Io Kernel FirewallResult
  rollback_backend null_backend apply = pure (record {
    backend = codes "none";
    applied = false;
    blocked_ips = [];
    detail = codes "disabled";
    preview = [];
  })
  rollback_backend nftables_backend apply =
      if not apply
      then pure (record {
        backend = codes "nftables";
        applied = false;
        blocked_ips = [];
        detail = codes "dry-run rollback";
        preview = rollback_script;
      })
      else (do
        nft ← nft_path
        check_script nft rollback_script
        load_script nft rollback_script
        pure (record {
          backend = codes "nftables";
          applied = true;
          blocked_ips = [];
          detail = codes "NetFather blocking set cleared";
          preview = rollback_script;
        }))
