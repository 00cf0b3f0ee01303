-- ===== src/Instance/Uri.antt =====
-- internal/instance/uri.go.
pub mod Client
pub mod Standard
pub mod Accept
