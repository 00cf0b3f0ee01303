-- ===== src/Instance.antt =====
-- internal/instance: validation, rendering and lifecycle of olcRTC instances.
pub mod Names
pub mod Net
pub mod Config
pub mod Uri
