-- ===== src/Store.antt =====
-- internal/store: the tables of the panel's database.
pub mod Traffic
pub mod Accounts
pub mod Rows
pub mod Db
pub mod Instances
pub mod Subscriptions
pub mod Entries
pub mod Keys
pub mod Statements
pub mod Integrity
pub mod Touch
pub mod Sorting
pub mod Found
pub mod Restore
pub mod Sessions
pub mod Revoked
pub mod Settings
pub mod Overrides
pub mod Reorder
