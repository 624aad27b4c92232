-- ===== src/Models.antt =====
-- custom_components/homekey_household/models.py: the validated payloads and the node. The child
-- modules are named for the classes; a `from_dict` is the class method of the class of its module.
pub mod Json
pub mod Errors
pub mod Values
pub mod Validators
pub mod State
pub mod Health
pub mod Records
pub mod Guest
pub mod Node
pub mod Parts
pub mod Identity
pub mod Payloads
