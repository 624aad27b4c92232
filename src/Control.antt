-- ===== src/Control.antt =====
-- custom_components/homekey_household/coordinator.py, lock.py and guest.py: the commands that are sent
-- to a node, over whichever transport an entry has, and what the caller is told.
pub mod Sending
pub mod Refusal
pub mod Lock
pub mod Confirmation
pub mod Guests
pub mod Targets
