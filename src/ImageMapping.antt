-- ===== src/ImageMapping.antt =====
-- internal/controller/imagemapping/imagemapping.go: the rewriting of image registries between two
-- clusters.
pub mod Registry
pub mod Rewrite
pub mod Roundtrip
pub mod Resolve
pub mod Workloads
mod Tests
