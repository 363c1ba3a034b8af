-- ===== src/Policy.antt =====
-- manager/policy_engine.py: the effective policy of a device.
pub mod Decision
pub mod Engine
pub mod Service
