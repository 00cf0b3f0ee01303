-- ===== src/Systemd.antt =====
-- internal/systemd/systemd.go: the panel's control of one service per instance.
pub mod Service
pub mod Show
pub mod Manage
pub mod Wait
pub mod Unit
pub mod Control
pub mod Uptime
pub mod Streak
