-- ===== src/Schedules.antt =====
-- manager/schedules.py: weekly windows of minutes, evaluated on real instants.
pub mod Window
pub mod Weekdays
pub mod Zones
pub mod Active
pub mod Change
