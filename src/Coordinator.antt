-- ===== src/Coordinator.antt =====
-- custom_components/homekey_household/coordinator.py: the household's state, the handlers of the
-- messages and the attribution of lock changes.
pub mod Store
pub mod Attribution
pub mod Handlers
pub mod Dispatch
pub mod Registry
pub mod Effects
pub mod Invariant
pub mod Rejection
pub mod Frame
pub mod Publication
pub mod LockEvents
pub mod Redelivery
pub mod EventKept
pub mod Retained
pub mod Actors
pub mod Causes
pub mod Merging
