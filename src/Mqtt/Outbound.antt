-- ===== src/Mqtt/Outbound.antt =====
-- mqtt.py: `async_publish_authenticated_command`, over the messages that the transport was given.
use homekey_household.Prelude.{
  ℕ, Text, text_eq, member, truthy, Bool, false, Option, none, some, List, [], ◌∷◌, ◌++◌, ℤ,
  if◌then◌else◌,
}
use homekey_household.Const.Topics.{
  action_lock, action_unlock, topic_cmd_lock, topic_cmd_unlock, node_topic,
}
use homekey_household.Models.Json.{Json}
use homekey_household.Models.Errors.{Result, ok, raise, credential_unavailable, unsupported_action}
use homekey_household.Command.Encoding.{Bytes}
use homekey_household.Command.Nonces.{NonceTracker}
use homekey_household.Command.Build.{
  Crypto, Draws, AuthenticatedCommand, to_dict, actions, build_command,
}

-- A call of `transport.publish`.
pub record Publication : Type 0 where
  pub topic : Text
  pub payload : Text
  pub qos : ℕ
  pub retain : Bool

-- What the client keeps and what it has published, oldest first.
pub record MqttClient : Type 0 where
  pub nonces : NonceTracker
  pub published : List Publication

abbrev pub or_unchanged : Option NonceTracker → NonceTracker → NonceTracker
or_unchanged none t = t
or_unchanged (some t') t = t'

-- `TOPIC_CMD_LOCK if action == "lock" else TOPIC_CMD_UNLOCK`
unfoldable pub command_subtopic : Text → Text
command_subtopic action = if text_eq action action_lock then topic_cmd_lock else topic_cmd_unlock

module _ (crypto : Crypto) (dumps : Json → Text) where
  -- `async_publish` of the built command; a call that raised has published nothing.
  publish_built : Text → Text → Text → Result AuthenticatedCommand → List Publication
  publish_built household_id node_id action (raise e) = []
  publish_built household_id node_id action (ok command) =
      record {
        topic = node_topic household_id node_id (some (command_subtopic action));
        payload = dumps (to_dict command);
        qos = 1;
        retain = false;
      }
      ∷ []

  send :
      Text
      → Text
      → Text
      → MqttClient
      → Result AuthenticatedCommand × Option NonceTracker
      → Result AuthenticatedCommand × MqttClient
  send household_id node_id action c (built, tracker) = (
    built,
    record {
      nonces = or_unchanged tracker c.nonces;
      published = c.published ++ publish_built household_id node_id action built;
    },
  )

  unfoldable pub publish_command :
      Draws
      → Text
      → Text
      → Bytes
      → Text
      → Option ℤ
      → MqttClient
      → Result AuthenticatedCommand × MqttClient
  unfolding send publish_built command_subtopic
  publish_command draws household_id node_id key action ts c =
      if truthy key
      then (if member action actions
          then send household_id node_id action c
              (build_command crypto draws key action ts none none (some c.nonces))
          else (raise unsupported_action, c))
      else (raise credential_unavailable, c)

  unfoldable pub lock :
      Draws → Text → Text → Bytes → Option ℤ → MqttClient → Result AuthenticatedCommand × MqttClient
  lock draws household_id node_id key ts c =
      publish_command draws household_id node_id key action_lock ts c

  unfoldable pub unlock :
      Draws → Text → Text → Bytes → Option ℤ → MqttClient → Result AuthenticatedCommand × MqttClient
  unlock draws household_id node_id key ts c =
      publish_command draws household_id node_id key action_unlock ts c
