-- ===== src/Tests.antt =====
-- Runs of the models at concrete inputs, and each theorem at an input that meets its hypotheses.
mod Data
mod Coordinator
mod Locks
mod Mqtt
mod Command
mod Credential
mod Models
mod Direct
mod Trust
mod Backup
mod Control
mod Diagnostics
mod Setup
