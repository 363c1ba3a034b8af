-- ===== src/Examples.antt =====
-- A small network for the examples: time is UTC, the library knows two addresses, and the kernel
-- holds one set that either has the address 10.0.0.2 or not.
pub mod SchedulesTests
pub mod PolicyTests
pub mod FirewallTests
pub mod GroupTests
pub mod RuleTests
pub mod DeviceTests
pub mod IdentityTests
use net_father.Prelude.{
  ℕ, ◌+◌, ◌*◌, ◌/◌, ◌%◌, ◌≡◌, refl, ap, subst, Bool, true, false, ◌&&◌, Option, none, some, List,
  [], ◌∷◌, eqb, ◌==◌, text_eq_instance, if◌then◌else◌, Text, Result, ok, err, os_error, Error,
  Bool-cases, some_injective, err_not_ok, inl, inr, arith,
}
use net_father.Prelude.Int.{pos}
use net_father.Prelude.Strings.{codes, has_char, has_part}
use net_father.Models.{Device}
use net_father.Models.Policies.{Profile, RuleFields, Rule, AnyRule, of_device}
use net_father.Database.{Database}
use net_father.Net.Addresses.{IpAddress, IpLibrary}
use net_father.Schedules.Zones.{WallTime, Zones}
use net_father.Firewall.Json.{Json, string, object, array, no_items, item, no_fields, field}
use net_father.Firewall.World.{Completed, Platform, World}

abbrev pub utc : Zones (Unit {0})
utc = record {
  tz_variable = none;
  system_zone = some (some tt);
  current_zone = tt;
  iana_zone = λ name. if name == codes "UTC" then some tt else none;
  wall = λ z t. record { day = (t / 86400000000 + 3) % 7; minute = t / 60000000 % 1440 };
  wall_minute = λ z t. omega arith;
  wall_day = λ z t. omega arith;
}

abbrev pub host_a : Text
host_a = codes "10.0.0.2"

abbrev pub host_b : Text
host_b = codes "10.0.0.3"

abbrev pub address_a : IpAddress
address_a = record { version = 4; number = 167772162; scope = none }

abbrev pub address_b : IpAddress
address_b = record { version = 4; number = 167772163; scope = none }

abbrev read_two : Text → Option IpAddress
read_two t = if t == host_a then some address_a else if t == host_b then some address_b else none

abbrev write_two : IpAddress → Text
write_two a = if eqb a.number 167772162 then host_a else host_b

pub one_of_two :
    (P : IpAddress → Type 0) (t : Text) (a : IpAddress)
    → P address_a
    → P address_b
    → read_two t ≡ some a
    → P a
one_of_two P t a p q h = elim (Bool-cases (t == host_a)) [
  | inl e ↦ subst P (some_injective (rw e at h)) p
  | inr e ↦ elim (Bool-cases (t == host_b)) [
    | inl f ↦ subst P (some_injective (rw (e, f) at h)) q
    | inr f ↦ let h' : none ≡ some a = rw (e, f) at h in absurd (not_some h')
  ]
]
  where
    not_some : none ≡ some a → ⊥
    not_some h = cc

pub no_percent_a : has_char b'%' host_a ≡ false
unfolding has_char
no_percent_a = refl

pub no_percent_b : has_char b'%' host_b ≡ false
unfolding has_char
no_percent_b = refl

abbrev pub two_addresses : IpLibrary
unfolding net_father.Prelude.text_eq
two_addresses = record {
  ip_address = read_two;
  str = write_two;
  is_private = λ a. true;
  is_link_local = λ a. false;
  read_back = λ t a h. one_of_two (λ a. read_two (write_two a) ≡ some a) t a refl refl h;
  no_scope = λ t a u h.
      one_of_two (λ a. has_char b'%' (write_two a) ≡ false) t a no_percent_a no_percent_b h;
}

-- A set as `nft -j` lists it.
abbrev set_text : Text → Bool → Json
set_text name full = object (
    field (codes "nftables")
      (array (
        item
          (object (
            field (codes "set")
              (object (
                field (codes "family") (string (codes "inet")) (
                  field (codes "table") (string (codes "netfather")) (
                    field (codes "name") (string name) (
                      field (codes "elem")
                        (array (if full then item (string host_a) no_items else no_items))
                        no_fields)))))
              no_fields))
          no_items))
      no_fields)

abbrev load : Text → Option Json
load [] = none
load (mark ∷ name) = some (set_text name (eqb mark b'+' && name == codes "blocked4"))

abbrev pub sixth : List Text → Text
sixth (a ∷ b ∷ c ∷ d ∷ e ∷ f ∷ g ∷ rest) = g
sixth _ = []

abbrev pub reply : Text → Completed
reply text = record { succeeded = true; stdout = text }

-- A script that is loaded decides whether the set has the address; a listing tells.
abbrev pub run_two : List Text → Option Text → Bool → Result Completed × Bool
run_two (nft ∷ flag ∷ rest) (some script) kernel =
    (ok (reply []), if flag == codes "-f" then has_part script host_a else kernel)
run_two args none kernel = (ok (reply ((if kernel then b'+' else b'-') ∷ sixth args)), kernel)
run_two args (some script) kernel = (err os_error, kernel)

abbrev pub platform : Platform Bool
platform = record {
  which = some (codes "nft");
  run = run_two;
  loads = load;
  dumps = λ fields. codes "{}";
  writable = λ db. true;
  message = λ e. codes "error";
  now = codes "2026-01-01T00:00:00+00:00";
  local_ipv4 = host_b ∷ [];
  local_ipv6 = [];
  local_ip = none;
  gateway = none;
  ipv4_forward = some (codes "1");
  ipv6_forward = some (codes "1");
}

abbrev pub tablet : Device
tablet = record {
  id = 1;
  name = codes "tablet";
  mac = codes "02:00:00:00:00:01";
  ip = some host_a;
  vendor = none;
  device_type = codes "unknown";
  hostname = none;
  os_hint = none;
  online = true;
  auto_registered = false;
  identity_conflict = false;
  identity_note = none;
  created_at = 0;
  last_seen = none;
}

-- Nights are blocked, from ten in the evening to six in the morning.
abbrev pub nights : AnyRule
nights = of_device (record {
  id = 1;
  device_id = 1;
  fields = record {
    action = codes "block";
    schedule = codes "22:00-06:00";
    enabled = true;
    description = none;
    priority = pos 0;
    timezone = codes "UTC";
    weekdays = codes "0,1,2,3,4,5,6";
  };
})

abbrev pub blocked_profile : Profile
blocked_profile = record {
  id = 1;
  device_id = 1;
  name = codes "off";
  internet_mode = codes "blocked";
}

abbrev pub home : Database
home = record {
  devices = tablet ∷ [];
  profiles = blocked_profile ∷ [];
  rules = [];
  groups = [];
  assignments = [];
  group_rules = [];
  events = [];
  observations = [];
  aliases = [];
  addresses = [];
  services = [];
}

abbrev pub open_world : World Bool
open_world = record { kernel = false; db = home }
