-- ===== src/Restore.antt =====
-- internal/controller/restore: the compiler of restore modifier rules.
pub mod Types
pub mod Governance
pub mod Flow
pub mod Pair
pub mod Keys
pub mod Merge
pub mod Candidate
pub mod Compile
pub mod Namespaces
mod Tests
