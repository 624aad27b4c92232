-- ===== src/Command.antt =====
-- custom_components/homekey_household/command.py: authenticated lock commands.
pub mod Encoding
pub mod Nonces
pub mod Build
pub mod Window
pub mod Totality
pub mod Material
