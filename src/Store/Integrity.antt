-- ===== src/Store/Integrity.antt =====
-- internal/store: the constraints of the tables, and the statements on each of the tables against them.
pub mod Tables
pub mod Instances
pub mod Kept
pub mod Subscriptions
pub mod Entries
pub mod Traffic
pub mod Statements
