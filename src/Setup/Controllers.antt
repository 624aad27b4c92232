-- ===== src/Setup/Controllers.antt =====
-- __init__.py, `async_setup_entry`: what the coordinator of an entry sends its commands with.
use homekey_household.Prelude.{
  Text, codes, Dict, lookup, Bool, true, false, none, some, [], ◌≡◌, ◌⊎◌, refl, inl, inr,
  if◌then◌else◌,
}
use homekey_household.Models.Json.{Json}
use homekey_household.Models.Errors.{raise, credential_unavailable}
use homekey_household.Models.Values.{truthy_json}
use homekey_household.Mqtt.Outbound.{MqttClient}
use homekey_household.Credential.Keys.{KeyStore, command_key_of}
use homekey_household.Control.Sending.{
  Controller, DirectNode, Attempt, command_key, is_some, command_control_enabled, send_lock_command,
}
use homekey_household.Control.Refusal.{send_lock_command_refused}

-- `options.get(key, data.get(key, DEFAULT_COMMAND_CONTROL))`, as a condition
unfoldable pub command_control_of : Dict Json → Dict Json → Bool
unfolding truthy_json
command_control_of options entry_data = elim (lookup (codes "command_control") options) [
  | some v ↦ truthy_json v
  | none ↦ elim (lookup (codes "command_control") entry_data) [
    | some v ↦ truthy_json v
    | none ↦ true
  ]
]

-- The coordinator of an entry over MQTT, with the provider of its command key.
unfoldable pub mqtt_controller : Text → Bool → KeyStore → MqttClient → Controller
unfolding command_key_of
mqtt_controller household_id command_control keys client = record {
  household_id = household_id;
  provider = if command_control then some (command_key_of household_id keys) else none;
  mqtt = some client;
  direct = none;
}

-- The coordinator of a direct entry, which is handed no key.
unfoldable pub direct_controller : Text → DirectNode → Controller
direct_controller household_id d = record {
  household_id = household_id;
  provider = none;
  mqtt = none;
  direct = some d;
}

unkeyed :
    (household_id : Text) (control : Bool) (keys : KeyStore) (client : MqttClient)
    → ((control ≡ false) ⊎ (lookup household_id keys.cache ≡ none))
    → command_control_enabled (mqtt_controller household_id control keys client) ≡ false
unfolding command_control_enabled mqtt_controller command_key is_some command_key_of
unkeyed household_id control keys client (inl off) = rw off refl
unkeyed household_id false keys client (inr absent) = refl
unkeyed household_id true keys client (inr absent) = rw absent refl

-- An entry over MQTT whose command control is switched off, or whose household has no stored key, sends
-- no command: it fails for want of a credential, and nothing is published.
pub mqtt_controller_refuses :
    (t : Attempt) (node_id action household_id : Text) (options entry_data : Dict Json)
    (keys : KeyStore) (client : MqttClient)
    → ((command_control_of options entry_data ≡ false) ⊎ (lookup household_id keys.cache ≡ none))
    → let c = mqtt_controller household_id (command_control_of options entry_data) keys client in
      send_lock_command t node_id action c ≡ (([], raise credential_unavailable), c)
mqtt_controller_refuses t node_id action household_id options entry_data keys client h =
    send_lock_command_refused t node_id action _
      (unkeyed household_id (command_control_of options entry_data) keys client h)
