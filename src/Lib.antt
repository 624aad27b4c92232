-- ===== src/Lib.antt =====
-- HomeKey Household: a model of the Home Assistant integration under
-- custom_components/homekey_household/, which keeps the state of the door locks of a household from
-- the messages that their nodes publish, and sends them authenticated lock commands.
--
-- The parts and how they meet. The MQTT client (mqtt.py) reads the topic of each publication, drops
-- what is not a state topic of the contract, and hands a message to the coordinator (coordinator.py).
-- The coordinator decodes the payload, checks it with the classes of models.py, writes the node in its
-- registry, gives a lock change its cause, pools the registry for a coordinator that starts later, and
-- shows it to the entities. In the other direction the client signs a command (command.py) with a nonce that
-- it has not used, and publishes it on the node's command topic. Without a broker, a poller
-- (direct.py) asks a node and hands the coordinator the messages that MQTT would have brought; its
-- connection is trusted for the fingerprint of the certificate that the user confirmed. The key of a
-- household is kept by credential.py. A lock entity (lock.py) sends a command through the coordinator
-- and waits for the state; the services of guest.py and backup.py talk to a node, and backup.py keeps
-- copies of what a node hands out. The configuration flow (config_flow.py) makes the entry that
-- __init__.py starts, and diagnostics.py reports on it with its secrets replaced.
-- discovery.py adds the entities of the nodes that the coordinator's registry shows. const.py has the
-- topics and words.
--
-- Files and sources:
--   Const/Words, Const/Topics   const.py: keys, enumerations, labels; topics and their sets
--   Models/*                    models.py: Validators (require_identity, normalise_timestamp, ...), and
--                               the class of each payload with its from_dict: State, Health, Records
--                               (BackupRecord, LastAuth, LockChange), Guest; Node and its properties
--   Command/Encoding            command.py: _key_material and canonical_input
--   Command/Nonces, Build       command.py: NonceTracker; derive_command_key, build_command
--   Mqtt/Topic, Inbound         mqtt.py: parse_topic; _on_message
--   Mqtt/Outbound               mqtt.py: async_publish_authenticated_command, async_lock, async_unlock
--   Coordinator/Store           coordinator.py: the state, _ensure_node, _merge_node, the pool, __init__
--   Coordinator/Attribution     coordinator.py: _is_recent, _actor_for, _attribute_lock_event,
--                               _attribute_lock_change, _async_log_lock_cause
--   Coordinator/Handlers        coordinator.py: the handler or branch of each subtopic
--   Coordinator/Dispatch        coordinator.py: _dispatch and async_handle_message
--   Direct/Health, Payloads     direct.py: health_from_state; resolve_identity, state_to_messages
--   Direct/Client, Poller       direct.py: _request, async_get_guest; DirectPoller
--   Direct/Fingerprint          direct.py: normalise_fingerprint, fingerprints_match
--   Direct/Connect, Commands    direct.py: async_connect_node; the requests of DirectClient
--   Credential/Keys, Hex        credential.py: CommandKeyStore; bytes.hex and bytes.fromhex
--   Control/Sending             coordinator.py: async_send_lock_command and its conditions
--   Control/Lock                lock.py: the states shown, the wait for an outcome, _async_send
--   Control/Guests              guest.py: the service handlers; coordinator.py: the guest commands
--   Backup/Records, Store       backup.py: StoredBackup; BackupStore
--   Backup/Settings, Service    backup.py: the settings of an entry; async_backup_entry
--   Backup/Restore              backup.py: async_restore_entry
--   Backup/Schedule             backup.py: _target_entry_ids and the passes over the entries
--   Setup/Flow, Household       config_flow.py: zeroconf, direct and reauth steps; async_step_household
--   Setup/Options               config_flow.py: HomeKeyHouseholdOptionsFlow
--   Setup/Start, Controllers    __init__.py: _async_start_direct; the commanding side of an entry
--   Diagnostics                 diagnostics.py: _redact and _backup_store_summary
--   Discovery                   discovery.py: async_add_entities_for_nodes
--   Prelude/*                   texts, dictionaries, integers and lists that the parts share
-- The other files of a part hold its lemmas and theorems; Tests runs them on sample payloads.
--
-- How the code is read. A text is the list of its code points. A payload that is rejected is an
-- error value with the check and the field that failed, without the wording. The coordinator is a
-- record that every operation takes and returns; a handler returns its outcome beside it. _dispatch
-- awaits nothing between its statements, so a sequence of messages is a sequence of whole steps. The
-- registry and the pool share node objects in the source; here they are values, which is the same
-- as long as every write to a pooled node is pooled again in the same call, and _dispatch does so.
-- The polls of one poller follow each other; a poll that a command starts in the middle of another one
-- is not modelled. The end of each request of a poll is a value, and so is the time of each message.
-- A Context is numbered by those made before it. A payload that reaches the coordinator is a text.
--
-- Parameters, for code outside the repository: json.loads and json.dumps, datetime conversion and
-- dt_util.parse_datetime, the logbook, the entity registry, hmac, blake2b, sha256, int() and float() of a
-- text, str() of a value, the certificate that a node shows, the ends of HTTP exchanges, the factory of
-- entities, and the draws of token_hex, uuid4 and the clocks. The file of Home Assistant's Store is a
-- JSON value that a save replaces. Listeners and the
-- transport are taken not to raise; what they do in reply is not modelled, nor is logging.
--
-- Bounds. The loop of fresh_nonce is its eight turns. The digits of a number are written with fuel for
-- one more division than the number needs. The wait for a lock has 21 looks, which is one more than
-- the half-second polls of its ten seconds. Everything else is structural.
--
-- Not modelled: sockets, TLS contexts and interval timers (the opening of a connection, the start and
-- stop of a poller), and the start and stop of the MQTT client, which call libraries; the wait of the
-- coordinator for the first nodes and the debounced reload, which hang on a timer; the registration of
-- services, platforms and listeners in __init__.py and backup.py, the restore service's loop and reload,
-- and unload; the forms of the configuration flow, and its steps that set up MQTT or its
-- add-on; the dictionary that diagnostics.py assembles of a runtime; the other entities
-- (sensor.py, binary_sensor.py, switch.py, number.py, button.py) and the attributes of the lock, which
-- are views of a node for Home Assistant's classes.
pub mod Prelude
pub mod Const
pub mod Models
pub mod Command
pub mod Control
pub mod Mqtt
pub mod Coordinator
pub mod Backup
pub mod Credential
pub mod Diagnostics
pub mod Direct
pub mod Discovery
pub mod Setup
mod Tests
