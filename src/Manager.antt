-- ===== src/Manager.antt =====
-- internal/instance/manager.go: the Manager, which keeps the database, the files of the instances and
-- their units in step.
pub mod World
pub mod Secrets
pub mod Files
pub mod Units
pub mod Update
pub mod Lifecycle
pub mod Queries
pub mod Reconcile
pub mod Reliable
pub mod Rollback
pub mod Steady
pub mod Atomic
pub mod Sanitized
pub mod Identity
pub mod NoRow
pub mod Created
