-- ===== src/Tests/Mqtt.antt =====
-- Runs of the topics and of the commands, and the theorems about them at concrete topics.
use homekey_household.Prelude.{
  Text, codes, true, false, Option, none, some, [], pos, ◌≡◌, refl, ◌⊎◌,
}
use homekey_household.Const.Topics.{node_topic, action_lock}
use homekey_household.Models.Json.{Json}
use homekey_household.Command.Build.{AuthenticatedCommand}
use homekey_household.Command.Nonces.{new_tracker}
use homekey_household.Mqtt.Topic.{household_topic, parse_topic}
use homekey_household.Mqtt.Inbound.{HomeKeyMessage}
use homekey_household.Mqtt.Outbound.{MqttClient, publish_command}
use homekey_household.Mqtt.RoundTrip.{OfHousehold, parse_topic-node_topic, parse_topic_sound}
use homekey_household.Mqtt.Filter.{Delivered, Availability, on_message_sound}
use homekey_household.Mqtt.Publishing.{Published, publish_command_ok}
use homekey_household.Tests.Data.{program, home, gate, toy, draws}

abbrev prefix : Option Text
prefix = some (codes "ESP_")

abbrev health_topic : Text
health_topic = codes "homekey/household/HOME-001/nodes/GATE-001/health"

will_topic :
    parse_topic (codes "ESP_A1B2/status") prefix
    ≡ some (record {
      household_id = none;
      node_id = some (codes "A1B2");
      subtopic = some (codes "legacy_status");
      legacy = true;
      reserved = false;
    })
unfolding program
will_topic = refl

parse_topic-node_topic_example :
    parse_topic (node_topic home gate (some (codes "health"))) prefix
    ≡ some (household_topic home gate (codes "health"))
unfolding program
parse_topic-node_topic_example =
    parse_topic-node_topic home gate b'h' (codes "ealth") prefix refl refl

parse_topic_sound_example : OfHousehold health_topic (household_topic home gate (codes "health"))
unfolding program
parse_topic_sound_example =
    parse_topic_sound health_topic prefix (household_topic home gate (codes "health")) refl refl

abbrev delivered : HomeKeyMessage
delivered = record {
  household_id = home;
  subtopic = codes "health";
  payload = codes "{}";
  node_id = some gate;
  qos = 1;
  retain = false;
  legacy = false;
}

on_message_sound_example :
    Delivered health_topic (codes "{}") 1 false delivered ⊎ Availability home (codes "{}") delivered
unfolding program
on_message_sound_example =
    on_message_sound home prefix health_topic (codes "{}") 1 false delivered refl

abbrev client : MqttClient
client = record { nonces = new_tracker 32; published = [] }

abbrev key : Text
key = codes "key"

abbrev no_json : Json → Text
no_json j = codes "{…}"

abbrev signed : AuthenticatedCommand
signed = record {
  ts = pos 17;
  nonce = codes "00ff";
  req_id = codes "abc";
  mac = codes "key1700ffabclock";
}

publish_command_ok_example :
    Published toy no_json home gate action_lock key client
      (publish_command toy no_json draws home gate key action_lock none client).1
      signed
unfolding program
publish_command_ok_example =
    publish_command_ok toy no_json draws home gate key action_lock none client signed refl
