-- ===== src/Firewall/Engine.antt =====
-- firewall/engine.py: the policy's block list is brought to the firewall, checked, and undone.
pub mod Safety
pub mod Recovery
pub mod Restored
pub mod Requested
use net_father.Prelude.{
  ℕ, Bool, true, false, not, ◌&&◌, ◌||◌, Option, none, some, List, [], ◌∷◌, ◌++◌, keep, dedupe,
  contains, ◌==◌, text_eq_instance, if◌then◌else◌, Text, Result, ok, err, Error, config_error,
  runtime_error,
}
use net_father.Prelude.Sorting.{sort}
use net_father.Prelude.Strings.{codes, strip, text_before}
use net_father.Database.{Database}
use net_father.Net.Addresses.{IpLibrary}
use net_father.Schedules.Zones.{Zones}
use net_father.Policy.Engine.{given, present, blocked_ips}
use net_father.Firewall.Base.{FirewallResult, normalize_local_ips}
use net_father.Firewall.Json.{
  Json, null, boolean, string, array, Jsons, no_items, item, Fields, no_fields, field,
}
use net_father.Firewall.World.{
  Platform, World, Io, pure, raise, lift, ◌>>=◌, ◌>>◌, attempt, raise_unless, record_event,
}
use net_father.Firewall.Backends.{
  Backend, backend_name, read_blocked_ips, apply_backend, rollback_backend,
}

-- `FirewallConfig` of core/config.py, without the backend's name, from which the backend was made.
pub record FirewallConfig : Type 0 where
  pub enforcement_enabled : Bool
  pub rollback_on_error : Bool
  pub enforcement_topology : Text

-- Equality of two tuples of texts.
unfoldable pub same_texts : List Text → List Text → Bool
same_texts [] [] = true
same_texts (s ∷ ss) (t ∷ ts) = s == t && same_texts ss ts
same_texts _ _ = false

pub json_texts : List Text → Jsons
json_texts [] = no_items
json_texts (t ∷ ts) = item (string t) (json_texts ts)

abbrev optional_texts : Option (List Text) → Json
optional_texts none = null
optional_texts (some ts) = array (json_texts ts)

abbrev optional_text : Option Text → Json
optional_text none = null
optional_text (some t) = string t

-- The argument `apply`, or the setting.
abbrev pub wanted : FirewallConfig → Option Bool → Bool
wanted config none = config.enforcement_enabled
wanted config (some b) = b

module _ {Kernel : Type 0} (platform : Platform Kernel) where
  abbrev one_address : Option Text → List Text
  one_address t = if given t then present t else []

  unfoldable pub protected_ips : List Text
  protected_ips =
      platform.local_ipv4
      ++ (platform.local_ipv6 ++ (one_address platform.local_ip ++ one_address platform.gateway))

  abbrev is_on : Option Text → Bool
  is_on none = false
  is_on (some text) = strip text == codes "1"

  unfoldable pub ip_forwarding_enabled : Bool
  ip_forwarding_enabled = is_on platform.ipv4_forward && is_on platform.ipv6_forward

  unfoldable pub validate_topology : FirewallConfig → Result (Unit {0})
  validate_topology config =
      let topology = config.enforcement_topology in
      if topology == codes "unverified" || topology == codes "host"
      then err config_error
      else if topology == codes "gateway" && not ip_forwarding_enabled
      then err config_error
      else ok tt

  -- `[ip for ip in requested_blocked if ip not in protected]`
  unfoldable pub unprotected : List Text → List Text
  unprotected requested = keep (λ ip. not (contains ip protected_ips)) requested

  abbrev pub error_metadata : Backend → Text
  error_metadata backend =
      platform.dumps (field (codes "backend") (string (backend_name backend)) no_fields)

  module _ (lib : IpLibrary) (config : FirewallConfig) (backend : Backend) where
    -- `tuple(normalize_local_ips(self.backend.read_blocked_ips()))`
    unfoldable pub read_state : Io Kernel (List Text)
    read_state = do ips ← read_blocked_ips platform lib backend; lift (normalize_local_ips lib ips)

    -- The set before the write, or the reason why it cannot be read. Every backend inherits
    -- `read_blocked_ips`, so that `can_read_state` holds.
    unfoldable pub snapshot : Bool → Io Kernel (Option (Result (List Text)))
    snapshot should_apply =
        if should_apply && config.rollback_on_error
        then (attempt read_state >>= λ r. pure (some r))
        else pure none

    -- The kernel must hold what was asked for.
    unfoldable pub verify : List Text → Io Kernel (Unit {0})
    verify blocked = do
      expected ← lift (normalize_local_ips lib blocked)
      actual ← read_state
      raise_unless (same_texts actual expected) runtime_error

    -- The body of the `try`.
    unfoldable pub perform : List Text → Bool → Io Kernel FirewallResult
    perform blocked should_apply = do
      result ← apply_backend platform lib backend blocked should_apply
      if should_apply && result.applied then (verify blocked >> pure result) else pure result

    -- The set is written back unless it is there already, and the kernel must hold it afterwards.
    unfoldable pub restore : List Text → Io Kernel (Unit {0})
    restore previous = do
      current ← read_state
      if same_texts current previous then pure tt else (do
        result ← apply_backend platform lib backend previous true
        restored ← read_state
        raise_unless (same_texts restored previous) runtime_error)

    abbrev unknown_state : Text
    unknown_state =
        codes
          "Önceki firewall durumu güvenilir biçimde okunamadığı için otomatik geri yükleme yapılmadı; mevcut kernel durumu belirsiz olabilir ve ayrıca doğrulanmalıdır."

    -- The text for a state that could not be read, given why.
    abbrev pub unread_text : Text → Text
    unread_text text =
        if given (some text)
        then unknown_state ++ (codes " Okuma hatası: " ++ text)
        else unknown_state

    abbrev read_error : Result (List Text) → Option Text
    read_error (ok ips) = none
    read_error (err e) = some (platform.message e)

    abbrev old_state : Result (List Text) → Option (List Text)
    old_state (ok ips) = some ips
    old_state (err e) = none

    -- The outcome of the recovery: its error, where it has one.
    unfoldable pub recover : Result (List Text) → Io Kernel (Option Text)
    recover (err e) = pure (some (unread_text (platform.message e)))
    recover (ok previous) = do
      outcome ← attempt (restore previous)
      pure (elim outcome [ ok _ ↦ none | err e ↦ some (platform.message e) ])

    pub recovery_metadata : Result (List Text) → Error → Text
    recovery_metadata before e = platform.dumps (
        field (codes "backend") (string (backend_name backend)) (
          field (codes "previous_blocked") (optional_texts (old_state before)) (
            field (codes "snapshot_error") (optional_text (read_error before))
              (field (codes "original_error") (string (platform.message e)) no_fields))))

    -- `if recovery_error:` records it.
    unfoldable pub report_recovery : Result (List Text) → Error → Option Text → Io Kernel (Unit {0})
    unfolding recovery_metadata
    report_recovery before e recovery_error = elim recovery_error [
      | none ↦ pure tt
      | some text ↦
          if given (some text)
          then record_event platform (codes "firewall_recovery_error") text (codes "error")
              (some (recovery_metadata before e))
          else pure tt
    ]

    -- The `except` block up to its `raise`.
    unfoldable pub on_error : Option (Result (List Text)) → Error → Io Kernel (Unit {0})
    on_error before e =
        record_event platform (codes "firewall_error") (platform.message e) (codes "error")
          (some (error_metadata backend))
        >> elim before [ none ↦ pure tt | some r ↦ recover r >>= report_recovery r e ]

    sync_metadata : FirewallResult → List Text → Text
    unfolding protected_ips
    sync_metadata result requested = platform.dumps (
        field (codes "backend") (string result.backend) (
          field (codes "blocked") (array (json_texts result.blocked_ips)) (
            field (codes "requested_blocked") (array (json_texts requested)) (
              field (codes "protected")
                (array (json_texts (sort text_before (dedupe protected_ips))))
                (field (codes "applied") (boolean result.applied)
                  (field (codes "timestamp") (string platform.now) no_fields))))))

    -- What follows the `try`.
    unfoldable pub conclude :
        List Text → Option (Result (List Text)) → Result FirewallResult → Io Kernel FirewallResult
    unfolding sync_metadata
    conclude requested before (err e) = on_error before e >> raise e
    conclude requested before (ok result) =
        record_event platform (codes "firewall_sync") result.detail (codes "info")
          (some (sync_metadata result requested))
        >> pure result

    -- From the snapshot on, for a list of addresses that are requested.
    unfoldable pub sync_list : List Text → Bool → Io Kernel FirewallResult
    sync_list requested should_apply = do
      let blocked = unprotected requested
      before ← snapshot should_apply
      outcome ← attempt (perform blocked should_apply)
      conclude requested before outcome

    module _ {Zone : Type 0} (zones : Zones Zone) where
      abbrev policy_list : ℕ → Io Kernel (List Text)
      policy_list when w = (blocked_ips zones lib w.db when, w)

      unfoldable pub sync : Option Bool → ℕ → Io Kernel FirewallResult
      sync apply when =
          lift (if wanted config apply then validate_topology config else ok tt)
          >> (policy_list when >>= λ requested. sync_list requested (wanted config apply))

      drift_metadata : List Text → Result (List Text) → Text
      drift_metadata expected actual = platform.dumps (
          field (codes "backend") (string (backend_name backend)) (
            field (codes "expected") (array (json_texts expected)) (
              field (codes "actual") (optional_texts (old_state actual)) (
                field (codes "read_error") (optional_text (read_error actual))
                  (field (codes "timestamp") (string platform.now) no_fields)))))

      abbrev differs_from : List Text → Result (List Text) → Bool
      differs_from expected (err e) = true
      differs_from expected (ok actual) = not (same_texts actual expected)

      unfoldable pub detect_drift : ℕ → Io Kernel Bool
      unfolding drift_metadata
      detect_drift when = do
        requested ← policy_list when
        expected ← lift (normalize_local_ips lib (unprotected requested))
        actual ← attempt (read_blocked_ips platform lib backend)
        if differs_from expected actual
            then (record_event platform (codes "firewall_drift")
                  (codes "Kernel firewall state differs from effective policy.") (codes "error")
                  (some (drift_metadata expected actual))
                >> pure true)
            else pure false

    pub rollback_metadata : FirewallResult → Text
    rollback_metadata result = platform.dumps (
        field (codes "backend") (string result.backend)
          (field (codes "applied") (boolean result.applied) no_fields))

    unfoldable pub rollback : Bool → Io Kernel FirewallResult
    unfolding rollback_metadata
    rollback apply = do
      result ← rollback_backend platform backend apply
      record_event platform (codes "firewall_rollback") result.detail (codes "info")
          (some (rollback_metadata result))
      pure result
