-- ===== src/Staging.antt =====
-- scripts/staging/hermes_staging_socket_diagnostic.py: a diagnostic run on the staging host that
-- changes a configuration file, observes, and restores it.
pub mod Request
pub mod Transactions
pub mod Counting
pub mod Active
pub mod Snapshots
pub mod Config
pub mod Crashes
pub mod Restoration
pub mod Refusals
pub mod Executor
mod Tests
