-- ===== src/Net/Hosts.antt =====
-- `DiscoveredHost` of network/discovery.py. Its latency is read nowhere in the manager.
use net_father.Prelude.{ℕ, Bool, true, Option, none, some, List, ◌==◌, text_eq_instance, Text}
use net_father.Prelude.Strings.{codes, upper}

pub record DiscoveredHost : Type 0 where
  pub ip : Text
  pub interface : Option Text
  pub mac : Option Text
  pub state : Option Text
  pub vendor : Option Text
  pub hostname : Option Text
  pub device_type : Option Text
  pub os_hint : Option Text
  pub source : Text
  pub open_tcp_ports : List ℕ
  pub open_udp_ports : List ℕ
  pub services : List Text
  pub scan_method : Option Text

abbrev is_reachable : Option Text → Bool
is_reachable none = true
is_reachable (some state) = upper state == codes "REACHABLE"

unfoldable pub presence_confirmed : DiscoveredHost → Bool
presence_confirmed host = is_reachable host.state
