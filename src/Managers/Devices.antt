-- ===== src/Managers/Devices.antt =====
-- manager/device_manager.py: the inventory of devices.
pub mod Find
pub mod Conflicts
pub mod Observations
pub mod Names
pub mod Keys
pub mod Stable
pub mod Edit
pub mod Distinct
pub mod Changed
pub mod Sync
pub mod Seen
pub mod Reconcile
pub mod Edited
pub mod Scanned
pub mod Calls
