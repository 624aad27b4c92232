-- ===== src/Tests/Setup.antt =====
-- An entry that is made and started, and one over MQTT that is not keyed.
use homekey_household.Prelude.{
  strip, codes, member, lookup, none, some, true, false, [], ◌∷◌, ◌≡◌, refl, arith, pos, inr,
}
use homekey_household.Models.Json.{Json, null, str}
use homekey_household.Models.Errors.{ok, raise, credential_unavailable}
use homekey_household.Models.Values
use homekey_household.Coordinator.Store.{start}
use homekey_household.Direct.Client
use homekey_household.Direct.Connect
use homekey_household.Direct.Fingerprint
use homekey_household.Direct.Payloads
use homekey_household.Direct.Poller.{Poll}
use homekey_household.Direct.Client.{Exchange}
use homekey_household.Models.Validators
use homekey_household.Command.Encoding
use homekey_household.Command.Encoding.{to_hex}
use homekey_household.Command.Build
use homekey_household.Command.Build.{Crypto}
use homekey_household.Credential.Keys
use homekey_household.Credential.Keys.{KeyStore, new_store, load}
use homekey_household.Credential.Changes.{first_start, first_start-IsStored}
use homekey_household.Setup.Household
use homekey_household.Setup.Household.{HouseholdInput, step_household}
use homekey_household.Setup.Keyed.{created_can_command}
use homekey_household.Models.Values.{truthy_json}
use homekey_household.Backup.Settings.{
  Entry, Transport, backup_client_for, entry_backup_settings, get_or_null,
}
use homekey_household.Setup.Options
use homekey_household.Setup.Options.{
  OptionsInput, step_options, new_options, password_or, current_password,
}
use homekey_household.Setup.Settings.{IsPassword}
use homekey_household.Setup.Rotation.{saved-backup_client_for, rotated_can_command}
use homekey_household.Mqtt.Outbound.{MqttClient}
use homekey_household.Command.Nonces.{new_tracker}
use homekey_household.Control.Sending.{send_lock_command, command_control_enabled}
use homekey_household.Setup.Flow
use homekey_household.Setup.Flow.{Discovery, DirectEntry, Step, step_direct}
use homekey_household.Direct.Connect.{Peer}
use homekey_household.Setup.Start.{Start, StartError, start_direct}
use homekey_household.Setup.Agreement.{Reaches, created-Reaches}
use homekey_household.Setup.Households.{IsDistinct, visit_all, visit_all-IsDistinct}
use homekey_household.Setup.Controllers.{
  command_control_of, mqtt_controller, mqtt_controller_refuses,
}
use homekey_household.Tests.Data.{program, home, gate, writer, with_json, described, noon}
use homekey_household.Tests.Trust.{whole_digest, peer}
use homekey_household.Tests.Control.{attempt}

abbrev discovered : Discovery
discovered = record {
  host = codes "10.0.0.2";
  port = pos 443;
  fingerprint = codes "ab:09";
  node_id = gate;
  node_name = codes "Gate";
  model = [];
  version = [];
}

abbrev made : DirectEntry
made = record {
  title = gate;
  household_id = home;
  household_name = home;
  node_id = gate;
  node_name = gate;
  model = [];
  host = codes "10.0.0.2";
  port = pos 443;
  fingerprint = codes "AB:09";
  username = codes "admin";
  password = codes "secret";
}

abbrev first_poll : Poll
first_poll = record {
  info = Exchange.timed_out;
  state = Exchange.timed_out;
  guest = Exchange.timed_out;
  times = λ i. noon;
}

-- A node that shows another certificate.
abbrev stranger : Peer
stranger = record peer { certificate = ok (0 ∷ []) }

created-Reaches_example :
    Reaches (with_json described) writer whole_digest (start home none 0) peer first_poll made
    × (start_direct
          (with_json described)
          writer
          whole_digest
          made
          (start home none 0)
          stranger
          first_poll
        ≡ ([], Start.failed StartError.refused))
unfolding program Flow.step_direct Flow.after_probe Flow.create_direct_entry Flow.entry_of
    Connect.connect_node Connect.with_certificate Connect.check_certificate Connect.identify
    Connect.read_identity Connect.probe_of Connect.check_protocol Connect.is_supported
    Client.request Values.mapping Values.or_json Values.truthy_json Values.text_of
    Payloads.resolve_identity Fingerprint.fingerprints_match Fingerprint.normalise_fingerprint
    Fingerprint.upper Fingerprint.without Fingerprint.certificate_fingerprint
    Fingerprint.format_fingerprint Fingerprint.hex_byte
created-Reaches_example =
    created-Reaches (with_json described) writer whole_digest (start home none 0) peer first_poll []
      discovered (codes " admin") (codes "secret") made stranger (0 ∷ []) refl refl refl refl

visit_all-IsDistinct_example : IsDistinct (
    visit_all writer whole_digest
      (record {
        discovery = discovered;
        given = codes "admin";
        password = codes "secret";
        peer = peer;
      }
        ∷ [])
      (gate ∷ []))
visit_all-IsDistinct_example =
    visit_all-IsDistinct writer whole_digest _ (gate ∷ []) (unfold member in refl, tt)

abbrev client : MqttClient
client = record { nonces = new_tracker 256; published = [] }

abbrev no_keys : KeyStore
no_keys = new_store null

mqtt_controller_refuses_example :
    let c = mqtt_controller home (command_control_of [] []) no_keys client in
    send_lock_command attempt gate (codes "lock") c ≡ (([], raise credential_unavailable), c)
mqtt_controller_refuses_example =
    mqtt_controller_refuses attempt gate (codes "lock") home [] [] no_keys client
      (inr (unfold new_store lookup in refl))

-- A hash of 32 zeros.
abbrev zeros : Crypto
zeros = record { hmac_hex = λ key m. []; blake2b = λ m key n. 0 ∷ 0 ∷ [] }

abbrev input : HouseholdInput
input = record {
  household_id = codes " HOME-001";
  household_name = none;
  recovery_secret = some (codes "secret");
  salt = none;
  command_control = true;
}

abbrev file_after : Json
file_after = (step_household zeros to_hex (λ t. false) input null).1

created_can_command_example :
    ((load to_hex (new_store file_after)).0 ≡ ok tt)
    × (command_control_enabled
          (mqtt_controller home true (load to_hex (new_store file_after)).1 client)
        ≡ true)
unfolding program Household.step_household Household.with_id Household.with_secret
    Household.keep_key Household.after_set Household.name_of Keys.load Keys.new_store
    Keys.entries_of Keys.read_entries Keys.returned Keys.set_from_secret Keys.set_derived
    Keys.set_key Keys.new_credential Keys.save Validators.validate_id Values.truthy_json
    Values.mapping Build.derive_command_key Encoding.key_material Encoding.text_material first_start
created_can_command_example =
    created_can_command zeros to_hex (λ t. false) input (first_start to_hex)
      (record { title = home; household_id = home; household_name = home; command_control = true })
      file_after client (λ m k. (omega arith, (omega arith, tt))) (first_start-IsStored to_hex) refl
      refl

abbrev changed : OptionsInput
changed = record {
  recovery_secret = some (codes "secret");
  salt = none;
  legacy_client_id_prefix = none;
  command_control = some true;
  host = some (codes " 10.0.0.2");
  port = none;
  username = some (codes "admin");
  password = none;
  fingerprint = some (codes "AB:09");
  include_credentials = none;
}

-- The entry's data has no password; the options have one from before.
abbrev before : Entry
before = record { entry_data = []; options = (codes "password", str (codes "secret")) ∷ [] }

abbrev rotated : Json
rotated = (step_options zeros to_hex home before changed null).1

saved-backup_client_for_example :
    let settings = entry_backup_settings (record {
      entry = some (record { entry_data = []; options = new_options before changed });
      household_id = home;
      transport = Transport.mqtt;
    }) in
    IsPassword [] before (get_or_null (codes "password") settings)
    × (backup_client_for settings ≡ true)
unfolding program Options.step_options Options.rotate Options.after_rotation
    Build.derive_command_key Encoding.key_material get_or_null truthy_json strip lookup
saved-backup_client_for_example =
    saved-backup_client_for zeros to_hex home before changed null (new_options before changed)
      rotated Transport.mqtt refl

rotated_can_command_example :
    ((load to_hex (new_store rotated)).0 ≡ ok tt)
    × (command_control_enabled
          (mqtt_controller home true (load to_hex (new_store rotated)).1 client)
        ≡ true)
unfolding program Options.step_options Options.rotate Options.after_rotation first_start Keys.load
    Keys.new_store Keys.entries_of Keys.read_entries Keys.returned Build.derive_command_key
    Encoding.key_material
rotated_can_command_example =
    rotated_can_command zeros to_hex home before changed (first_start to_hex)
      (new_options before changed) rotated client (λ m k. (omega arith, (omega arith, tt)))
      (first_start-IsStored to_hex) refl refl
