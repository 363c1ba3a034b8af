-- ===== src/Examples/DeviceTests.antt =====
-- The theorems on the inventory of devices at a small input.
use net_father.Prelude.{
  contains, text_eq_instance, ℕ, ◌≡◌, refl, Bool, true, false, Option, none, some, List, [], ◌∷◌,
  Text, ok,
}
use net_father.Prelude.Int.{pos}
use net_father.Prelude.Strings.{codes}
use net_father.Net.Mac.{normalize_mac}
use net_father.Net.Mac.Normal.{normalize_mac_idem}
use net_father.Net.Hosts.{DiscoveredHost}
use net_father.Managers.Devices.Names.{auto_name}
use net_father.Managers.Devices.Names.Fresh.{auto_name-free}
use net_father.Managers.Devices.Observations.{JsonTexts}
use net_father.Managers.Devices.Distinct.{Distinct}
use net_father.Managers.Devices.Calls.{
  DeviceCall, adding, seeing, updating, presenting, syncing, reconciling, deleting, calls,
  calls-Distinct,
}
use net_father.Examples.{two_addresses, home, host_a, host_b}

abbrev pub no_json : JsonTexts
no_json = record { dump_ports = λ ports. codes "[]"; dump_services = λ services. codes "[]" }

abbrev pub phone : DiscoveredHost
phone = record {
  ip = host_a;
  interface = some (codes "eth0");
  mac = some (codes "02:00:00:00:00:0b");
  state = some (codes "reachable");
  vendor = none;
  hostname = some (codes "phone");
  device_type = none;
  os_hint = none;
  source = codes "passive";
  open_tcp_ports = [];
  open_udp_ports = [];
  services = [];
  scan_method = none;
}

home-Distinct : Distinct home
home-Distinct = record { ids = (tt, tt); names = (tt, tt); macs = (tt, tt) }

-- The phone registers itself with the tablet's address, a second tablet is refused, the tablet is
-- renamed, and the phone is deleted.
abbrev a_day : List (ℕ × DeviceCall)
a_day =
    (1, reconciling true (pos 45) true (phone ∷ []))
    ∷ (2, adding (codes "tablet") (codes "02:00:00:00:00:0c") none none (codes "tablet"))
    ∷ (
      3,
      updating (codes "tablet") (record {
        new_name = some (codes " desk ");
        mac = some (codes "02:00:00:00:00:0d");
        ip = none;
        vendor = none;
        device_type = none;
      }),
    )
    ∷ (4, presenting (codes "02:00:00:00:00:0d") true (some host_b))
    ∷ (5, seeing (codes "02:00:00:00:00:0d") none)
    ∷ (6, syncing (phone ∷ phone ∷ []))
    ∷ (7, deleting (codes "phone-00000b") none)
    ∷ []

calls-Distinct_example : Distinct (calls none two_addresses no_json a_day home)
calls-Distinct_example = calls-Distinct none two_addresses no_json a_day home home-Distinct

dashes-normal : normalize_mac (codes " 02-00-00-00-00-0b") ≡ ok (codes "02:00:00:00:00:0B")
unfolding normalize_mac net_father.Net.Mac.is_mac net_father.Prelude.Strings.strip
    net_father.Prelude.Strings.replace net_father.Prelude.Strings.upper
dashes-normal = refl

normalize_mac_idem_example :
    normalize_mac (codes "02:00:00:00:00:0B") ≡ ok (codes "02:00:00:00:00:0B")
normalize_mac_idem_example =
    normalize_mac_idem (codes " 02-00-00-00-00-0b") (codes "02:00:00:00:00:0B") dashes-normal

-- The phone's name is taken, and so is its second one.
abbrev taken : List Text
taken = codes "phone-00000b" ∷ codes "phone-00000b-2" ∷ []

auto_name-free_example : contains (auto_name phone taken) taken ≡ false
auto_name-free_example = auto_name-free phone taken

auto_name_run : auto_name phone taken ≡ codes "phone-00000b-3"
unfolding auto_name net_father.Prelude.any net_father.Prelude.text_eq
    net_father.Managers.Devices.Names.plain_name net_father.Managers.Devices.Names.base_of
    net_father.Prelude.Strings.strip net_father.Prelude.keep
    net_father.Managers.Devices.Names.suffix_of net_father.Managers.Devices.Names.seek_name
    net_father.Managers.Devices.Names.numbered net_father.Prelude.Strings.decimal
auto_name_run = refl
