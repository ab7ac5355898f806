-- ===== src/Operation.antt =====
-- internal/controller/disasteroperation: the operations on an instance or a group.
pub mod Samples
pub mod Children
pub mod Retry
pub mod Reports
pub mod Checks
pub mod Trigger
pub mod Types
pub mod Steps
pub mod Each
pub mod Failure
pub mod Schedules
pub mod AutoCancel
pub mod InFlight
pub mod Failover
pub mod Failed
pub mod Reprotect
pub mod Undo
pub mod Cancel
pub mod Sync
pub mod Group
pub mod Drill
pub mod Reconcile
pub mod Course
mod Tests
