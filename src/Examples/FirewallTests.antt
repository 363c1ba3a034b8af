-- ===== src/Examples/FirewallTests.antt =====
-- The theorems on the firewall at small inputs.
use net_father.Prelude.{
  ℕ, ◌≡◌, ◌≢◌, refl, ◌↔◌, Bool, true, false, Option, none, some, List, [], ◌∷◌, ◌++◌, In, contains,
  text_eq_instance, inl, length, ◌⊎◌, if◌then◌else◌, ◌==◌, runtime_error, Text, Result, ok, err,
}
use net_father.Prelude.Strings.{codes, has_part, is_empty}
use net_father.Firewall.Base.{FirewallResult, local_ip, normalize_local_ips}
use net_father.Firewall.Base.Normal.{
  IsNormal, IsWritten, normalize_local_ips_idem, normalize_local_ips-IsNormal-In,
}
use net_father.Firewall.Scripts.{upgrade_script, update_script}
use net_father.Firewall.World.{Completed, Platform, World}
use net_father.Firewall.Backends.{Backend, nftables_backend, null_backend}
use net_father.Firewall.Engine.{
  FirewallConfig, sync, rollback, unprotected, protected_ips, wanted, detect_drift, read_state,
}
use net_father.Firewall.Engine.Safety.{KeepsKernel, sync-KeepsKernel}
use net_father.Firewall.Engine.Restored.{Recovered, sync-Recovered}
use net_father.Firewall.Engine.Requested.{Allowed, sync-Allowed}
use net_father.Firewall.Engine.Recovery.{Seen, MayEnforce, sync-Seen, detect_drift-null}
use net_father.Policy.Engine.{blocked_ips}
use net_father.Examples.{
  utc, two_addresses, platform, home, open_world, host_a, host_b, reply, run_two, sixth,
}

abbrev gateway : FirewallConfig
gateway = record {
  enforcement_enabled = true;
  rollback_on_error = true;
  enforcement_topology = codes "gateway";
}

abbrev both : List Text
both = host_b ∷ host_a ∷ host_b ∷ []

both_run : normalize_local_ips two_addresses both ≡ ok (host_a ∷ host_b ∷ [])
unfolding normalize_local_ips net_father.Firewall.Base.local_ips local_ip two_addresses
    net_father.Prelude.Strings.before_char net_father.Prelude.Sorting.sort net_father.Prelude.dedupe
    net_father.Firewall.Base.ip_before net_father.Firewall.Base.ip_key
both_run = refl

normalize_local_ips_idem_example :
    normalize_local_ips two_addresses (host_a ∷ host_b ∷ []) ≡ ok (host_a ∷ host_b ∷ [])
normalize_local_ips_idem_example = normalize_local_ips_idem two_addresses both both_run

normalize_local_ips-IsNormal-In_example :
    IsNormal two_addresses (host_a ∷ host_b ∷ [])
    × ((t : Text) → In t (host_a ∷ host_b ∷ []) ↔ IsWritten two_addresses both t)
normalize_local_ips-IsNormal-In_example =
    normalize_local_ips-IsNormal-In two_addresses both both_run

sync-KeepsKernel_example :
    KeepsKernel platform two_addresses
      (sync platform two_addresses gateway nftables_backend utc (some false) 0)
    × KeepsKernel platform two_addresses
        (rollback platform two_addresses gateway nftables_backend false)
sync-KeepsKernel_example =
    sync-KeepsKernel platform two_addresses gateway nftables_backend utc (some false) 0 refl

requested_run : blocked_ips utc two_addresses home 0 ≡ ok (host_a ∷ [])
unfolding blocked_ips net_father.Policy.Engine.evaluate_all net_father.Policy.Engine.evaluate_list
    net_father.Prelude.Sorting.sort net_father.Policy.Engine.evaluate
    net_father.Policy.Engine.policy_inputs net_father.Prelude.find net_father.Prelude.dedupe
    net_father.Policy.Engine.blocked_list net_father.Policy.Engine.policy_of
    net_father.Policy.Decision.decision net_father.Policy.Decision.verdict
    net_father.Policy.Engine.own_modes net_father.Prelude.text_eq
    net_father.Policy.Decision.invalid_rules net_father.Policy.Engine.own_rules
    net_father.Policy.Engine.duplicate_ip net_father.Prelude.any
    net_father.Policy.Decision.allow_text net_father.Policy.Decision.enabled_rules
    net_father.Policy.Decision.rule_active net_father.Policy.Decision.rule_before
    net_father.Policy.Decision.rule_key net_father.Policy.Engine.candidates
    net_father.Policy.Engine.check_address net_father.Policy.Engine.earliest
    net_father.Policy.Engine.follow net_father.Policy.Engine.next_transition
    net_father.Prelude.option_eq net_father.Prelude.keep net_father.Prelude.Sorting.insert
    net_father.Prelude.Strings.is_space net_father.Prelude.Strings.join
    net_father.Prelude.Strings.lstrip net_father.Prelude.Strings.rstrip
    net_father.Prelude.Strings.split net_father.Prelude.Strings.strip
    net_father.Prelude.Strings.text_before net_father.Prelude.Strings.decimal
    net_father.Prelude.Strings.decimal_from net_father.Prelude.Strings.int
    net_father.Prelude.Strings.int_digits net_father.Prelude.Strings.two_digits
    net_father.Schedules.Active.active net_father.Schedules.Active.in_window
    net_father.Schedules.Active.weekday_set net_father.Schedules.Active.when_days
    net_father.Schedules.Change.find_change net_father.Schedules.Change.next_change
    net_father.Schedules.Change.seek net_father.Schedules.Weekdays.normalize_days
    net_father.Schedules.Weekdays.parse_days net_father.Schedules.Weekdays.show_days
    net_father.Schedules.Weekdays.sorted_days net_father.Schedules.Weekdays.weekday
    net_father.Schedules.Window.Parse.parse_window net_father.Schedules.Window.Parse.take_dash
    net_father.Schedules.Window.Parse.take_hour net_father.Schedules.Window.Parse.take_minute
    net_father.Schedules.Window.all_minutes net_father.Schedules.Window.clock_minutes
    net_father.Schedules.Window.int_part net_father.Schedules.Window.normalize_part
    net_father.Schedules.Window.normalize_parts net_father.Schedules.Window.normalize_windows
    net_father.Schedules.Window.pair_minutes net_father.Schedules.Window.show_window
    net_father.Schedules.Window.windows net_father.Schedules.Zones.local_zone
    net_father.Schedules.Zones.strip_colons net_father.Schedules.Zones.zone
requested_run = refl

host_a_run :
    normalize_local_ips two_addresses (unprotected platform (host_a ∷ [])) ≡ ok (host_a ∷ [])
unfolding normalize_local_ips net_father.Firewall.Base.local_ips unprotected net_father.Prelude.keep
    net_father.Prelude.any protected_ips net_father.Prelude.text_eq local_ip
    net_father.Prelude.Strings.before_char net_father.Prelude.Sorting.sort net_father.Prelude.dedupe
host_a_run = refl

detect_drift-null_example :
    (detect_drift platform two_addresses gateway null_backend utc 0 open_world).0 ≡ ok true
detect_drift-null_example =
    detect_drift-null platform two_addresses gateway utc 0 open_world requested_run host_a_run

abbrev updated : FirewallResult
updated = record {
  backend = codes "nftables";
  applied = true;
  blocked_ips = host_a ∷ [];
  detail = codes "NetFather nftables set updated atomically";
  preview = update_script (host_a ∷ []);
}

abbrev after_sync : World Bool
after_sync = (sync platform two_addresses gateway nftables_backend utc (some true) 0 open_world).1

sync_run :
    sync platform two_addresses gateway nftables_backend utc (some true) 0 open_world
    ≡ (ok updated, after_sync)
unfolding sync net_father.Firewall.Engine.validate_topology net_father.Prelude.text_eq
    net_father.Firewall.Engine.ip_forwarding_enabled net_father.Prelude.Strings.strip
    net_father.Prelude.Strings.lstrip net_father.Prelude.Strings.rstrip blocked_ips
    net_father.Policy.Engine.evaluate_all net_father.Policy.Engine.evaluate_list
    net_father.Prelude.Sorting.sort net_father.Prelude.Sorting.insert
    net_father.Policy.Engine.evaluate net_father.Policy.Engine.policy_inputs net_father.Prelude.find
    net_father.Firewall.Engine.sync_list net_father.Firewall.Engine.snapshot
    net_father.Firewall.Engine.conclude net_father.Firewall.Engine.perform
    net_father.Firewall.Engine.verify net_father.Firewall.Engine.read_state
    net_father.Firewall.Engine.same_texts net_father.Firewall.Engine.protected_ips
    net_father.Firewall.Backends.apply_backend net_father.Firewall.Backends.apply_nftables
    net_father.Firewall.Backends.preview net_father.Firewall.Backends.nft_path
    net_father.Firewall.Backends.check_script net_father.Firewall.Backends.load_script
    net_father.Firewall.Backends.write_sets net_father.Firewall.Backends.upgrade
    net_father.Firewall.Backends.read_blocked_ips net_father.Firewall.Backends.read_set
    net_father.Firewall.Scripts.ruleset_text normalize_local_ips net_father.Firewall.Base.local_ips
    local_ip net_father.Firewall.Base.ip_before net_father.Firewall.Base.ip_key unprotected
    net_father.Prelude.keep net_father.Prelude.dedupe net_father.Prelude.any
    net_father.Policy.Engine.blocked_list net_father.Policy.Engine.policy_of
    net_father.Policy.Engine.own_modes net_father.Policy.Engine.own_rules
    net_father.Policy.Engine.duplicate_ip net_father.Policy.Engine.check_address
    net_father.Policy.Engine.next_transition net_father.Policy.Decision.decision
    net_father.Policy.Decision.verdict net_father.Policy.Decision.invalid_rules
    net_father.Policy.Decision.enabled_rules net_father.Prelude.Strings.before_char
    net_father.Prelude.Strings.has_part net_father.Prelude.Strings.has_char
    net_father.Prelude.Strings.starts_with net_father.Prelude.Strings.replace_first
    net_father.Prelude.Strings.text_before net_father.Prelude.Strings.join
    net_father.Prelude.Strings.is_space net_father.Firewall.World.run_nft
    net_father.Firewall.World.record_event net_father.Firewall.Json.items_of
    net_father.Firewall.Json.get net_father.Firewall.Json.set_objects
    net_father.Firewall.Json.elements net_father.Firewall.Json.texts update_script
sync_run = refl

sync-Seen_example :
    MayEnforce platform two_addresses gateway nftables_backend
    × (requested : List Text) × (blocked_ips utc two_addresses home 0 ≡ ok requested)
    × (ips : List Text) × (normalize_local_ips two_addresses (unprotected platform requested)
        ≡ ok ips)
    × (w₁ : World Bool) × Seen platform two_addresses gateway nftables_backend ips w₁
    × (after_sync.kernel ≡ w₁.kernel)
sync-Seen_example =
    sync-Seen platform two_addresses gateway nftables_backend utc (some true) 0 updated open_world
      after_sync sync_run refl refl

sync-Allowed_example :
    (requested : List Text) × (blocked_ips utc two_addresses home 0 ≡ ok requested)
    × ((t : Text) → In t (host_a ∷ []) ↔ Allowed platform two_addresses requested t)
sync-Allowed_example =
    sync-Allowed platform two_addresses gateway nftables_backend utc (some true) 0 updated
      open_world after_sync sync_run

-- A script that empties the set does so and fails all the same; one with the address succeeds.
abbrev run_faulty : List Text → Option Text → Bool → Result Completed × Bool
run_faulty (nft ∷ flag ∷ rest) (some script) kernel =
    let full = has_part script host_a in
    if flag == codes "-f"
    then (ok (record { succeeded = full; stdout = [] }), full)
    else (ok (reply []), kernel)
run_faulty args none kernel =
    if is_empty (sixth args)
    then (ok (reply (codes "set blocked6")), kernel)
    else run_two args none kernel
run_faulty args (some script) kernel = run_two args (some script) kernel

abbrev faulty : Platform Bool
faulty = record platform { run = run_faulty }

-- The set has the address, which the policy no longer blocks.
abbrev full_world : World Bool
full_world = record { kernel = true; db = record home { profiles = [] } }

abbrev after_failure : World Bool
after_failure = (sync faulty two_addresses gateway nftables_backend utc none 0 full_world).1

failure_run :
    sync faulty two_addresses gateway nftables_backend utc none 0 full_world
    ≡ (err runtime_error, after_failure)
unfolding sync net_father.Firewall.Engine.validate_topology net_father.Prelude.text_eq
    net_father.Firewall.Engine.ip_forwarding_enabled net_father.Prelude.Strings.strip
    net_father.Prelude.Strings.lstrip net_father.Prelude.Strings.rstrip blocked_ips
    net_father.Policy.Engine.evaluate_all net_father.Policy.Engine.evaluate_list
    net_father.Prelude.Sorting.sort net_father.Prelude.Sorting.insert
    net_father.Policy.Engine.evaluate net_father.Policy.Engine.policy_inputs net_father.Prelude.find
    net_father.Firewall.Engine.sync_list net_father.Firewall.Engine.snapshot
    net_father.Firewall.Engine.conclude net_father.Firewall.Engine.perform
    net_father.Firewall.Engine.verify net_father.Firewall.Engine.same_texts
    net_father.Firewall.Engine.protected_ips net_father.Firewall.Backends.apply_backend
    net_father.Firewall.Backends.apply_nftables net_father.Firewall.Backends.preview
    net_father.Firewall.Backends.nft_path net_father.Firewall.Backends.check_script
    net_father.Firewall.Backends.load_script net_father.Firewall.Backends.write_sets
    net_father.Firewall.Backends.upgrade net_father.Firewall.Backends.read_blocked_ips
    net_father.Firewall.Backends.read_set net_father.Firewall.Scripts.ruleset_text
    normalize_local_ips net_father.Firewall.Base.local_ips local_ip
    net_father.Firewall.Base.ip_before net_father.Firewall.Base.ip_key unprotected
    net_father.Prelude.keep net_father.Prelude.dedupe net_father.Prelude.any
    net_father.Policy.Engine.blocked_list net_father.Policy.Engine.policy_of
    net_father.Policy.Engine.own_modes net_father.Policy.Engine.own_rules
    net_father.Policy.Engine.duplicate_ip net_father.Policy.Engine.check_address
    net_father.Policy.Engine.next_transition net_father.Policy.Decision.decision
    net_father.Policy.Decision.verdict net_father.Policy.Decision.invalid_rules
    net_father.Policy.Decision.enabled_rules net_father.Prelude.Strings.before_char has_part
    net_father.Prelude.Strings.has_char net_father.Prelude.Strings.starts_with
    net_father.Prelude.Strings.replace_first net_father.Prelude.Strings.text_before
    net_father.Prelude.Strings.join net_father.Prelude.Strings.is_space
    net_father.Firewall.World.run_nft net_father.Firewall.World.record_event
    net_father.Firewall.Json.items_of net_father.Firewall.Json.get
    net_father.Firewall.Json.set_objects net_father.Firewall.Json.elements
    net_father.Firewall.Json.texts update_script net_father.Firewall.Engine.on_error
    net_father.Firewall.Engine.recover net_father.Firewall.Engine.restore
    net_father.Firewall.Engine.report_recovery net_father.Firewall.Scripts.ipv4_of
    net_father.Firewall.Scripts.ipv6_of net_father.Firewall.Scripts.set_body read_state
failure_run = refl

-- The set has the address again, and only the failure of the write is recorded.
after_failure_run : (after_failure.kernel ≡ true) × (length after_failure.db.events ≡ 1)
unfolding sync net_father.Firewall.Engine.validate_topology net_father.Prelude.text_eq
    net_father.Firewall.Engine.ip_forwarding_enabled net_father.Prelude.Strings.strip
    net_father.Prelude.Strings.lstrip net_father.Prelude.Strings.rstrip blocked_ips
    net_father.Policy.Engine.evaluate_all net_father.Policy.Engine.evaluate_list
    net_father.Prelude.Sorting.sort net_father.Prelude.Sorting.insert
    net_father.Policy.Engine.evaluate net_father.Policy.Engine.policy_inputs net_father.Prelude.find
    net_father.Firewall.Engine.sync_list net_father.Firewall.Engine.snapshot
    net_father.Firewall.Engine.conclude net_father.Firewall.Engine.perform
    net_father.Firewall.Engine.verify net_father.Firewall.Engine.same_texts
    net_father.Firewall.Engine.protected_ips net_father.Firewall.Backends.apply_backend
    net_father.Firewall.Backends.apply_nftables net_father.Firewall.Backends.preview
    net_father.Firewall.Backends.nft_path net_father.Firewall.Backends.check_script
    net_father.Firewall.Backends.load_script net_father.Firewall.Backends.write_sets
    net_father.Firewall.Backends.upgrade net_father.Firewall.Backends.read_blocked_ips
    net_father.Firewall.Backends.read_set net_father.Firewall.Scripts.ruleset_text
    normalize_local_ips net_father.Firewall.Base.local_ips local_ip
    net_father.Firewall.Base.ip_before net_father.Firewall.Base.ip_key unprotected
    net_father.Prelude.keep net_father.Prelude.dedupe net_father.Prelude.any
    net_father.Policy.Engine.blocked_list net_father.Policy.Engine.policy_of
    net_father.Policy.Engine.own_modes net_father.Policy.Engine.own_rules
    net_father.Policy.Engine.duplicate_ip net_father.Policy.Engine.check_address
    net_father.Policy.Engine.next_transition net_father.Policy.Decision.decision
    net_father.Policy.Decision.verdict net_father.Policy.Decision.invalid_rules
    net_father.Policy.Decision.enabled_rules net_father.Prelude.Strings.before_char has_part
    net_father.Prelude.Strings.has_char net_father.Prelude.Strings.starts_with
    net_father.Prelude.Strings.replace_first net_father.Prelude.Strings.text_before
    net_father.Prelude.Strings.join net_father.Prelude.Strings.is_space
    net_father.Firewall.World.run_nft net_father.Firewall.World.record_event
    net_father.Firewall.Json.items_of net_father.Firewall.Json.get
    net_father.Firewall.Json.set_objects net_father.Firewall.Json.elements
    net_father.Firewall.Json.texts update_script net_father.Firewall.Engine.on_error
    net_father.Firewall.Engine.recover net_father.Firewall.Engine.restore
    net_father.Firewall.Engine.report_recovery net_father.Firewall.Scripts.ipv4_of
    net_father.Firewall.Scripts.ipv6_of net_father.Firewall.Scripts.set_body read_state
after_failure_run = (refl, refl)

sync-Recovered_example :
    (after_failure ≡ full_world)
    ⊎ ((before : Result (List Text)) × (w₀ : World Bool) × (read_state faulty two_addresses gateway
            nftables_backend full_world
          ≡ (before, w₀))
        × Recovered faulty two_addresses gateway nftables_backend before after_failure)
sync-Recovered_example =
    sync-Recovered faulty two_addresses gateway nftables_backend utc none 0 runtime_error full_world
      after_failure (λ db. refl) refl refl failure_run
