-- ===== src/Firewall.antt =====
-- firewall/*.py: the addresses that may be enforced, the nftables backend and the engine.
pub mod Base
pub mod Json
pub mod World
pub mod Scripts
pub mod Backends
pub mod Engine
