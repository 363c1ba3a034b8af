-- ===== src/Models/Evidence.antt =====
-- models/device_observation.py and models/network_evidence.py.
use net_father.Prelude.{ℕ, Option, Text}

pub record DeviceObservationRecord : Type 0 where
  pub id : ℕ
  pub device_id : ℕ
  pub ip : Option Text
  pub interface : Option Text
  pub hostname : Option Text
  pub vendor : Option Text
  pub device_type : Option Text
  pub os_hint : Option Text
  pub source : Text
  pub confidence : ℕ
  pub observed_at : ℕ

pub record IdentityAlias : Type 0 where
  pub mac : Text
  pub device_id : ℕ
  pub reason : Text

pub record AddressEvidence : Type 0 where
  pub id : ℕ
  pub device_id : ℕ
  pub ip : Text
  pub interface : Text
  pub observed_mac : Text
  pub source : Text
  pub first_seen : ℕ
  pub last_seen : ℕ

pub record ServiceEvidence : Type 0 where
  pub id : ℕ
  pub device_id : ℕ
  pub ip : Text
  pub observed_at : ℕ
  pub tcp_ports : Text
  pub udp_ports : Text
  pub services : Text
  pub source : Text
