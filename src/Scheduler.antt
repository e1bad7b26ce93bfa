-- ===== src/Scheduler.antt =====
-- src/bk/scheduler.py, one module for each group of its functions.
pub mod Reasons
pub mod Loads
pub mod Availability
pub mod Gpus
pub mod Horizon
pub mod Placement
pub mod Search
pub mod Metadata
pub mod Operations
pub mod Maintenance
pub mod Outcome
pub mod Lookup
pub mod Booking
pub mod Replays
pub mod Violations
pub mod Peaks
pub mod Occupancy
pub mod Cancel
pub mod Edit
