-- ===== src/Credential.antt =====
-- custom_components/homekey_household/credential.py: the derived command keys, kept in a file.
pub mod Keys
pub mod Hex
pub mod Reload
pub mod Changes
