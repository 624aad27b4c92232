-- ===== src/Backup.antt =====
-- custom_components/homekey_household/backup.py: the backups that nodes hand over, the few that are
-- kept of each node, and the service calls that take and restore them.
pub mod Records
pub mod Store
pub mod Retention
pub mod Reload
pub mod Settings
pub mod Service
pub mod Restore
pub mod Outcome
pub mod Secrecy
pub mod Schedule
