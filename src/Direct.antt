-- ===== src/Direct.antt =====
-- custom_components/homekey_household/direct.py: the transport without a broker, which polls a node
-- and gives the coordinator the messages that MQTT would have brought.
pub mod Health
pub mod Payloads
pub mod Client
pub mod Fingerprint
pub mod Pinning
pub mod Connect
pub mod Trust
pub mod Commands
pub mod Traces
pub mod Poller
pub mod Feed
pub mod Offline
pub mod Unavailable
pub mod Recovery
pub mod Sentinel
