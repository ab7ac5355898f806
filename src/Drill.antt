-- ===== src/Drill.antt =====
-- internal/controller/disasterdrill: the controller of the disaster drills.
pub mod Types
pub mod Diagram
pub mod Shown
pub mod Mode
pub mod Reason
pub mod Pending
pub mod Ready
pub mod Cleanup
pub mod Reconcile
mod Tests
