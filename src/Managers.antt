-- ===== src/Managers.antt =====
-- manager/*_manager.py: the operations on the tables.
pub mod Devices
pub mod Profiles
pub mod Groups
pub mod RuleFields
pub mod Rules
pub mod Identities
