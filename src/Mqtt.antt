-- ===== src/Mqtt.antt =====
-- custom_components/homekey_household/mqtt.py: the topics, the messages that come in, and the
-- commands that go out.
pub mod Topic
pub mod Inbound
pub mod Outbound
pub mod RoundTrip
pub mod Filter
pub mod Publishing
pub mod Ids
