-- ===== src/Panel.antt =====
-- internal/config/config.go.
pub mod Paths
pub mod Disjoint
pub mod Settings
pub mod Sound
