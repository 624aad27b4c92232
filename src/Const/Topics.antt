-- ===== src/Const/Topics.antt =====
-- const.py: the household topics, the sets of subtopics, and the builders of topics and ids.
use homekey_household.Prelude.{Text, codes, Option, none, some, List, [], ◌∷◌, ◌++◌, Dict}

abbrev pub topic_root : Text
topic_root = codes "homekey"

abbrev pub topic_household : Text
topic_household = codes "household"

abbrev pub topic_nodes : Text
topic_nodes = codes "nodes"

abbrev pub topic_status : Text
topic_status = codes "status"

abbrev pub topic_state : Text
topic_state = codes "state"

abbrev pub topic_health : Text
topic_health = codes "health"

abbrev pub topic_security : Text
topic_security = codes "security"

abbrev pub topic_backup_status : Text
topic_backup_status = codes "backup/status"

abbrev pub topic_backup_last : Text
topic_backup_last = codes "backup/last"

abbrev pub topic_last_auth : Text
topic_last_auth = codes "last_auth"

abbrev pub topic_guest_status : Text
topic_guest_status = codes "guest/status"

abbrev pub topic_lock_last : Text
topic_lock_last = codes "lock/last"

abbrev pub topic_cmd_lock : Text
topic_cmd_lock = codes "command/lock"

abbrev pub topic_cmd_unlock : Text
topic_cmd_unlock = codes "command/unlock"

abbrev pub reserved_topics : List Text
reserved_topics =
    codes "events"
    ∷ codes "backup/request"
    ∷ codes "backup/data"
    ∷ codes "restore/request"
    ∷ codes "restore/status"
    ∷ []

abbrev pub json_subtopics : List Text
json_subtopics =
    topic_state ∷ topic_health ∷ topic_backup_last ∷ topic_last_auth ∷ topic_lock_last
    ∷ topic_guest_status ∷ []

abbrev pub plain_subtopics : List Text
plain_subtopics = topic_status ∷ topic_security ∷ topic_backup_status ∷ []

abbrev pub kind_legacy_status : Text
kind_legacy_status = codes "legacy_status"

-- `_LEGACY_SUFFIX_KINDS` of mqtt.py
abbrev pub legacy_suffix_kinds : Dict Text
legacy_suffix_kinds =
    (codes "status", kind_legacy_status)
    ∷ (codes "homekit/state", codes "legacy_state")
    ∷ (codes "homekey/auth", codes "legacy_auth")
    ∷ []

abbrev pub action_lock : Text
action_lock = codes "lock"

abbrev pub action_unlock : Text
action_unlock = codes "unlock"

abbrev pub entity_lock : Text
entity_lock = codes "lock"

-- `COMMAND_ACTIONS`: the action of a command is the one of its topic.
abbrev pub command_actions : Dict Text
command_actions = (topic_cmd_lock, action_lock) ∷ (topic_cmd_unlock, action_unlock) ∷ []

unfoldable pub node_base : Text → Text → Text
node_base household_id node_id =
    topic_root
    ++ (codes "/"
        ++ (topic_household
            ++ (codes "/"
                ++ (household_id ++ (codes "/" ++ (topic_nodes ++ (codes "/" ++ node_id)))))))

-- An empty or missing subtopic gives the base.
unfoldable pub node_topic : Text → Text → Option Text → Text
unfolding node_base
node_topic household_id node_id none = node_base household_id node_id
node_topic household_id node_id (some []) = node_base household_id node_id
node_topic household_id node_id (some (c ∷ s)) =
    node_base household_id node_id ++ (codes "/" ++ (c ∷ s))

-- `<hid>_<nid>_<entity>`
unfoldable pub unique_id : Text → Text → Text → Text
unique_id household_id node_id entity_type =
    household_id ++ (codes "_" ++ (node_id ++ (codes "_" ++ entity_type)))
