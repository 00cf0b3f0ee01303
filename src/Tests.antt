-- ===== src/Tests.antt =====
-- Sample runs of the theorems and of the functions they are about.
mod Samples
mod Uris
mod Configs
mod Services
mod Feeds
mod Ledger
mod Mounts
mod Tables
mod Secrets
mod Managers
