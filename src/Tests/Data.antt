-- ===== src/Tests/Data.antt =====
-- The data of the tests: a household with a gate, payloads as `json.loads` returns them, and
-- libraries that stand in for the ones that the program calls.
use homekey_household.Prelude.{
  Text, codes, text_eq, member, lookup, insert, strip, lower, lower_code, is_space, lstrip, split,
  split_add, join, strip_prefix, split_once, int_eq, true, false, none, some, ◌++◌, pos,
}
use homekey_household.Const.Words.{lock_state_of, lock_state_value}
use homekey_household.Const.Topics.{node_base, node_topic, unique_id}
use homekey_household.Models.Json.{Json, int, str, obj, end, field, get, has}
use homekey_household.Models.Errors.{ok}
use homekey_household.Models.Validators
use homekey_household.Models.Validators.{Clock}
use homekey_household.Models.State
use homekey_household.Models.Health
use homekey_household.Models.Records
use homekey_household.Models.Node
use homekey_household.Models.Values.{Writer}
use homekey_household.Mqtt.Topic
use homekey_household.Mqtt.Inbound
use homekey_household.Mqtt.Inbound.{HomeKeyMessage}
use homekey_household.Mqtt.Outbound
use homekey_household.Command.Encoding
use homekey_household.Command.Nonces
use homekey_household.Command.Build
use homekey_household.Command.Build.{Crypto, Draws}
use homekey_household.Coordinator.Store
use homekey_household.Coordinator.Store.{Platform, Moment, Coordinator, ParsedTime, start}
use homekey_household.Coordinator.Attribution
use homekey_household.Coordinator.Handlers
use homekey_household.Coordinator.Dispatch

-- What a run computes with.
unfoldable pub program : Unit {0}
unfolding text_eq member lookup insert strip lower lower_code is_space lstrip split split_add join
    strip_prefix split_once int_eq lock_state_of lock_state_value node_base node_topic unique_id get
    has Validators.require_dict Validators.require_str Validators.optional_str
    Validators.optional_int Validators.optional_bool Validators.as_str Validators.as_optional_int
    Validators.as_optional_str Validators.normalise_timestamp Validators.validate_identity
    Validators.require_identity Validators.char_in State.from_dict Health.from_dict
    Health.security_object Records.change_from_dict Records.required_int Records.known_source
    Node.new_node Node.event_key_eq Node.lock_change_key Node.from_state Topic.is_valid_id
    Topic.parse_topic Inbound.on_message Outbound.publish_command Encoding.encode_utf8
    Encoding.canonical_input Encoding.is_hex Nonces.fresh_nonce Nonces.new_nonce Nonces.remember
    Nonces.is_plausible Nonces.new_tracker Build.build_command Build.sign Build.make_command_mac
    Store.start Store.ensured Store.ensure_node Store.merge_node Attribution.attribute_lock_event
    Attribution.attribute_lock_change Attribution.is_recent Attribution.is_announced
    Handlers.handle_node_status Handlers.handle_legacy_status Handlers.handle_health
    Handlers.handle_lock_last Handlers.handle_state Dispatch.dispatch Dispatch.handle
    Dispatch.finish Dispatch.decode Dispatch.kind_of Dispatch.handle_message
program = tt

abbrev pub home : Text
home = codes "HOME-001"

abbrev pub gate : Text
gate = codes "GATE-001"

abbrev pub garage : Text
garage = codes "GARAGE-001"

abbrev pub no_clock : Clock
no_clock = record { iso_of_int = λ n. some (codes "t"); iso_of_float = λ x. none }

-- `json.loads` returns the given value for every text, and no text is a date-time.
abbrev pub with_json : Json → Platform
with_json j = record {
  loads = λ t. ok j;
  clock = no_clock;
  parse_datetime = λ t. ParsedTime.not_datetime;
  log_raises = λ e. false;
  entity_id_of = λ u. some u;
}

abbrev pub noon : Moment
noon = record { now = pos 1700000000000000; now_iso = codes "noon" }

abbrev pub one : Moment
one = record { now = pos 1700003600000000; now_iso = codes "one" }

abbrev pub message : Text → Text → HomeKeyMessage
message subtopic payload = record {
  household_id = home;
  subtopic = subtopic;
  payload = payload;
  node_id = some gate;
  qos = 0;
  retain = true;
  legacy = false;
}

abbrev pub tapped : Json
tapped = obj (
    field (codes "current") (int (pos 0)) (
      field (codes "source") (str (codes "homekey")) (field (codes "timestamp") (int (pos 5)) end)))

abbrev pub locked : Json
locked =
    obj (field (codes "mqtt") (str (codes "OK")) (field (codes "lock_current") (int (pos 1)) end))

abbrev pub described : Json
described = obj (
    field (codes "household_id") (str home)
      (field (codes "node_id") (str gate) (field (codes "node_name") (str (codes "Gate")) end)))

abbrev pub fresh : Coordinator
fresh = start home none 0

abbrev pub toy : Crypto
toy = record { hmac_hex = λ key m. key ++ m; blake2b = λ m key n. m }

abbrev pub draws : Draws
draws = record { token_hex = λ i n. codes "00ff"; request_id = codes "abc"; epoch_seconds = pos 17 }

abbrev pub writer : Writer
writer = record { dumps = λ j. codes "{}"; shown = λ j. codes "?" }
