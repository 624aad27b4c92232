-- ===== src/Mqtt/Inbound.antt =====
-- mqtt.py: `HomeKeyMqttClient._on_message`, from a broker message to the coordinator's message.
use homekey_household.Prelude.{
  ℕ, Text, text_eq, member, or_text, Bool, false, ◌||◌, Option, none, some, if◌then◌else◌,
}
use homekey_household.Const.Topics.{json_subtopics, plain_subtopics, kind_legacy_status}
use homekey_household.Mqtt.Topic.{ParsedTopic, parse_topic}

pub record HomeKeyMessage : Type 0 where
  pub household_id : Text
  pub subtopic : Text
  pub payload : Text
  pub node_id : Option Text
  pub qos : ℕ
  pub retain : Bool
  pub legacy : Bool

-- `parsed.subtopic == value`, where the subtopic may be None
unfoldable pub subtopic_in : Option Text → (Text → Bool) → Bool
subtopic_in none test = false
subtopic_in (some s) test = test s

unfoldable pub is_known : Text → Bool
is_known s = member s json_subtopics || member s plain_subtopics

-- An assertion of the source rules the first case out.
known_message : Option Text → HomeKeyMessage → Option HomeKeyMessage
known_message none m = none
known_message (some s) m = some (record m { subtopic = s })

-- What `_on_message` does with the parsed topic: the message that it hands to the callback, if any.
unfoldable pub accept : Text → ParsedTopic → Text → ℕ → Bool → Option HomeKeyMessage
unfolding known_message subtopic_in is_known
accept own_household parsed payload qos retain =
    let message : HomeKeyMessage = record {
      household_id = own_household;
      subtopic = kind_legacy_status;
      payload = payload;
      node_id = parsed.node_id;
      qos = qos;
      retain = retain;
      legacy = parsed.legacy;
    } in
    if parsed.reserved
    then none
    else if parsed.legacy
    then (if subtopic_in parsed.subtopic (λ s. text_eq s kind_legacy_status)
        then some message
        else none)
    else if subtopic_in parsed.subtopic is_known
    then known_message parsed.subtopic
        (record message { household_id = or_text parsed.household_id own_household })
    else none

accept_parsed : Text → Option ParsedTopic → Text → ℕ → Bool → Option HomeKeyMessage
unfolding accept
accept_parsed own_household none payload qos retain = none
accept_parsed own_household (some parsed) payload qos retain =
    accept own_household parsed payload qos retain

unfoldable pub on_message : Text → Option Text → Text → Text → ℕ → Bool → Option HomeKeyMessage
unfolding accept_parsed
on_message own_household legacy_prefix topic payload qos retain =
    accept_parsed own_household (parse_topic topic legacy_prefix) payload qos retain
