-- ===== src/Net.antt =====
-- The network side: addresses, hardware addresses and observed hosts.
pub mod Addresses
pub mod Mac
pub mod Hosts
