-- ===== src/Setup.antt =====
-- custom_components/homekey_household/config_flow.py and __init__.py: how an entry for a node without
-- a broker is made, and how an entry of either kind is started.
pub mod Flow
pub mod Start
pub mod Controllers
pub mod Connection
pub mod Agreement
pub mod Households
pub mod Household
pub mod Keyed
pub mod Options
pub mod Settings
pub mod Rotation
