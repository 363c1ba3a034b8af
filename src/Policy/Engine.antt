-- ===== src/Policy/Engine.antt =====
-- `PolicyEngine` of manager/policy_engine.py and the snapshot of manager/policy_service.py.
pub mod Blocked
pub mod Transition
use net_father.Prelude.{
  ℕ, zero, suc, ◌+◌, Bool, true, false, not, ◌&&◌, ◌||◌, Option, none, some, List, [], ◌∷◌, ◌++◌,
  map, find, any, keep, count, is_some, dedupe, ltb, leb, eqb, ◌==◌, nat_eq, text_eq_instance,
  option_eq_instance, if◌then◌else◌, Text, Result, ok, err, attribute_error, device_not_found,
  ◌>>=◌, or_raise,
}
use net_father.Prelude.Sorting.{sort}
use net_father.Prelude.Strings.{codes, is_empty, text_before}
use net_father.Models.{Device}
use net_father.Models.Policies.{
  Profile, Rule, GroupRule, AnyRule, of_device, of_group, Mode, rule_fields,
}
use net_father.Database.{Database, get_assignment, get_group}
use net_father.Net.Addresses.{IpAddress, IpLibrary}
use net_father.Schedules.Zones.{Zones}
use net_father.Schedules.Active.{aware}
use net_father.Schedules.Change.{Timetable, next_change}
use net_father.Policy.Decision.{Decision, rule_key, has_mode, decision}

pub record DevicePolicy : Type 0 where
  pub device_id : ℕ
  pub name : Text
  pub mac : Text
  pub ip : Option Text
  pub online : Bool
  pub allowed : Bool
  pub reason : Text
  pub enforcement_eligible : Bool
  pub explanation : Text
  pub active_rules : List Text
  pub conflicts : List Text
  pub next_transition : Option ℕ

-- Python's truth of an optional text: present and not empty.
abbrev pub given : Option Text → Bool
given none = false
given (some t) = not (is_empty t)

-- The addresses of the policies that deny access, may be enforced and have one.
abbrev pub present : Option Text → List Text
present none = []
present (some t) = t ∷ []

-- The condition of the comprehension.
abbrev pub is_blocked : DevicePolicy → Bool
is_blocked p = not p.allowed && given p.ip && p.enforcement_eligible

unfoldable pub blocked_list : List DevicePolicy → List Text
blocked_list [] = []
blocked_list (p ∷ ps) = (if is_blocked p then present p.ip else []) ++ blocked_list ps

abbrev profile_mode : Profile → Mode
profile_mode p = record { name = p.name; internet_mode = p.internet_mode }

unfoldable pub own_modes : Database → Device → List Mode
own_modes db device = map profile_mode (
    sort (λ (p q : Profile). ltb p.id q.id)
      (keep (λ (p : Profile). p.device_id == device.id) db.profiles))

unfoldable pub own_rules : Database → Device → List AnyRule
own_rules db device = map of_device (keep (λ (r : Rule). r.device_id == device.id) db.rules)

-- A `None` at the end of the profiles is read, and raises, unless both searches stop before it.
abbrev pub reads_none : List Mode → Bool
reads_none modes =
    not (any (has_mode (codes "blocked")) modes && any (has_mode (codes "controlled")) modes)

-- The lists that `_evaluate` reads. An assignment to a profile that is not there appends None.
unfoldable pub policy_inputs : Database → Device → Result (List Mode × List AnyRule)
policy_inputs db device = elim (get_assignment device.id db) [
  | none ↦ ok (own_modes db device, own_rules db device)
  | some assignment ↦
      let own = own_modes db device in
      let rules =
        own_rules db device
        ++ map of_group
            (keep (λ (r : GroupRule). r.profile_id == assignment.profile_id) db.group_rules) in
      elim (get_group assignment.profile_id db) [
        | none ↦ if reads_none own then err attribute_error else ok (own, rules)
        | some group ↦
            ok (
              own ++ (record { name = group.name; internet_mode = group.internet_mode } ∷ []),
              rules,
            )
      ]
]

-- Another device has the same address in its row.
unfoldable pub duplicate_ip : Database → Device → Bool
duplicate_ip db device =
    given device.ip && any (λ (d : Device). not (d.id == device.id) && d.ip == device.ip) db.devices

-- What the stored address says about enforcement: it does not parse, or it is link-local IPv6.
pub data AddressCheck : Type 0 where
  usable invalid_address scoped_ipv6 : AddressCheck

module _ (lib : IpLibrary) where
  open lib use {ip_address, is_link_local}

  unfoldable pub check_address : Option Text → AddressCheck
  check_address none = usable
  check_address (some t) = if is_empty t then usable else elim (ip_address t) [
    | none ↦ invalid_address
    | some a ↦ if eqb a.version 6 && is_link_local a then scoped_ipv6 else usable
  ]

abbrev is_usable : AddressCheck → Bool
is_usable usable = true
is_usable _ = false

abbrev no_texts : List Text → Bool
no_texts [] = true
no_texts (_ ∷ _) = false

address_notes : AddressCheck → List Text
address_notes usable = []
address_notes invalid_address =
    codes "Stored address is invalid; review required before enforcement." ∷ []
address_notes scoped_ipv6 =
    codes
      "Link-local IPv6 requires an interface-qualified enforcement path; this backend cannot enforce it safely."
    ∷ []

duplicate_notes : Bool → List Text
duplicate_notes false = []
duplicate_notes true =
    codes
      "Another registered identity claims the selected IP; enforcement is excluded pending review."
    ∷ []

explain : Bool → Text → Text
explain allowed reason =
    (if allowed then codes "Access allowed. " else codes "Access denied. ")
    ++ (reason
        ++ (codes ". "
            ++ (codes
                  "Block rules override allow rules; higher priority wins within the same action. "
                ++ (codes "Controlled profiles deny access unless an allow window is active. "
                    ++ codes
                        "Schedules use their configured IANA time zone; overnight windows belong to the starting weekday."))))

abbrev timetable : AnyRule → Timetable
timetable rule =
    let f = rule_fields rule in
    record { schedule = f.schedule; timezone = f.timezone; weekdays = f.weekdays }

-- `min(candidates)`
unfoldable pub earliest : List ℕ → Option ℕ
earliest [] = none
earliest (t ∷ ts) = elim (earliest ts) [ none ↦ some t | some u ↦ some (if ltb u t then u else t) ]

-- A change within the limit.
abbrev pub within : ℕ → Result (Option ℕ) → List ℕ
within limit (ok (some t)) = if leb t limit then t ∷ [] else []
within limit (ok none) = []
within limit (err _) = []

-- Eight days and the number of rounds of the loop.
abbrev pub look_ahead : ℕ
look_ahead = 691200000000

abbrev pub rounds : ℕ
rounds = 2048

module _ {Zone : Type 0} (zones : Zones Zone) where
  -- The candidates of one round; a rule whose schedule raises is passed over.
  unfoldable pub candidates : List AnyRule → ℕ → ℕ → List ℕ
  candidates [] cursor limit = []
  candidates (rule ∷ rules) cursor limit =
      within limit (next_change zones (timetable rule) (rule_fields rule).enabled cursor)
      ++ candidates rules cursor limit

  module _ (profiles : List Mode) (rules : List AnyRule) (allowed : Bool) (limit : ℕ) where
    -- `decision(profiles, rules, cursor)[0] != allowed`
    abbrev pub flips_at : ℕ → Bool
    flips_at t =
        let now = (decision zones profiles rules (aware t)).allowed in
        if allowed then not now else now

    -- The loop, for as many rounds as are left.
    unfoldable pub follow : ℕ → ℕ → Option ℕ
    follow zero cursor = none
    follow (suc left) cursor = elim (earliest (candidates rules cursor limit)) [
      | none ↦ none
      | some next ↦ elim (flips_at next) [ true ↦ some next | false ↦ follow left next ]
    ]

  unfoldable pub next_transition : List Mode → List AnyRule → Bool → ℕ → Option ℕ
  next_transition profiles rules allowed when =
      if any (has_mode (codes "blocked")) profiles
      then none
      else follow profiles rules allowed (when + look_ahead) rounds when

  module _ (lib : IpLibrary) where
    unfoldable pub policy_of : Database → Device → ℕ → List Mode → List AnyRule → DevicePolicy
    unfolding address_notes duplicate_notes explain
    policy_of db device when profiles rules =
        let d = decision zones profiles rules (aware when) in
        let duplicate = duplicate_ip db device in
        let address = check_address lib device.ip in
        record {
          device_id = device.id;
          name = device.name;
          mac = device.mac;
          ip = device.ip;
          online = device.online;
          allowed = d.allowed;
          reason = d.reason;
          enforcement_eligible =
              not device.identity_conflict
              && no_texts d.invalid
              && not duplicate
              && is_usable address;
          explanation = explain d.allowed d.reason;
          active_rules = map rule_key d.enabled;
          conflicts = d.conflicts ++ (duplicate_notes duplicate ++ address_notes address);
          next_transition = next_transition profiles rules d.allowed when;
        }

    unfoldable pub evaluate : Database → Device → ℕ → Result DevicePolicy
    evaluate db device when = do
      (profiles, rules) ← policy_inputs db device
      ok (policy_of db device when profiles rules)

    unfoldable pub evaluate_device : Database → Text → ℕ → Result DevicePolicy
    evaluate_device db name when = do
      device ← or_raise (find (λ (d : Device). d.name == name) db.devices) device_not_found
      evaluate db device when

    unfoldable pub evaluate_list : Database → ℕ → List Device → Result (List DevicePolicy)
    evaluate_list db when [] = ok []
    evaluate_list db when (device ∷ devices) = do
      policy ← evaluate db device when
      policies ← evaluate_list db when devices
      ok (policy ∷ policies)

    unfoldable pub evaluate_all : Database → ℕ → Result (List DevicePolicy)
    evaluate_all db when = evaluate_list db when (sort (λ (d e : Device). ltb d.id e.id) db.devices)

    unfoldable pub blocked_ips : Database → ℕ → Result (List Text)
    blocked_ips db when = do
      policies ← evaluate_all db when
      ok (sort text_before (dedupe (blocked_list policies)))
