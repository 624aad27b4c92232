-- ===== src/Mqtt/Topic.antt =====
-- mqtt.py: `parse_topic` and the legacy topics.
use homekey_household.Prelude.{
  Text, text_eq, truthy, member, leb, length, all, split, join, split_once, strip_prefix, lookup,
  Bool, true, false, ◌&&◌, Option, none, some, List, ◌∷◌, if◌then◌else◌,
}
use homekey_household.Const.Words.{id_safe_chars}
use homekey_household.Const.Topics.{
  topic_root, topic_household, topic_nodes, reserved_topics, legacy_suffix_kinds,
}
use homekey_household.Models.Validators.{char_in}

pub record ParsedTopic : Type 0 where
  pub household_id : Option Text
  pub node_id : Option Text
  pub subtopic : Option Text
  pub legacy : Bool
  pub reserved : Bool

unfoldable pub is_valid_id : Text → Bool
unfolding char_in
is_valid_id value = truthy value && leb (length value) 64 && all (char_in id_safe_chars) value

-- A topic of the household namespace.
abbrev pub household_topic : Text → Text → Text → ParsedTopic
household_topic household_id node_id subtopic = record {
  household_id = some household_id;
  node_id = some node_id;
  subtopic = some subtopic;
  legacy = false;
  reserved = member subtopic reserved_topics;
}

-- `parts[3:]`: `nodes`, the node and at least one part of the subtopic.
unfoldable pub parse_node : Text → List Text → Option ParsedTopic
parse_node household_id (nodes ∷ node_id ∷ s ∷ ss) =
    if text_eq nodes topic_nodes && is_valid_id node_id
    then some (household_topic household_id node_id (join b'/' s ss))
    else none
parse_node household_id _ = none

-- `parts[1:]`
unfoldable pub parse_household : List Text → Option ParsedTopic
unfolding parse_node
parse_household (household ∷ household_id ∷ rest) =
    if text_eq household topic_household && is_valid_id household_id
    then parse_node household_id rest
    else none
parse_household _ = none

legacy_kind : Text → Option Text → Option ParsedTopic
legacy_kind client_id none = none
legacy_kind client_id (some kind) = some (record {
  household_id = none;
  node_id = some client_id;
  subtopic = some kind;
  legacy = true;
  reserved = false;
})

legacy_parts : Option (Text × Text) → Option ParsedTopic
unfolding legacy_kind
legacy_parts none = none
legacy_parts (some (client_id, suffix)) =
    if truthy client_id then legacy_kind client_id (lookup suffix legacy_suffix_kinds) else none

legacy_rest : Option Text → Option ParsedTopic
unfolding legacy_parts
legacy_rest none = none
legacy_rest (some rest) = legacy_parts (split_once b'/' rest)

-- `_parse_legacy_topic`
unfoldable pub parse_legacy_topic : Text → Text → Option ParsedTopic
unfolding legacy_rest
parse_legacy_topic topic prefix = legacy_rest (strip_prefix prefix topic)

-- `if legacy_prefix: …`, for an optional prefix
unfoldable pub parse_legacy : Text → Option Text → Option ParsedTopic
unfolding parse_legacy_topic
parse_legacy topic none = none
parse_legacy topic (some prefix) = if truthy prefix then parse_legacy_topic topic prefix else none

unfoldable pub parse_topic : Text → Option Text → Option ParsedTopic
unfolding parse_household parse_legacy
parse_topic topic legacy_prefix =
    let parts = split b'/' topic in
    if text_eq parts.0 topic_root then parse_household parts.1 else parse_legacy topic legacy_prefix
