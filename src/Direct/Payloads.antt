-- ===== src/Direct/Payloads.antt =====
-- direct.py: a node's answers translated into the messages of the MQTT contract.
use homekey_household.Prelude.{
  Text, codes, member, Bool, true, false, List, [], ◌∷◌, ◌++◌, some, if◌then◌else◌,
}
use homekey_household.Const.Words.{
  key_household_id, key_node_id, key_node_name, key_node_role, key_node_state, key_generation,
  key_firmware, key_lock_source, key_auth_result, security_states, backup_outcomes, auth_results,
}
use homekey_household.Const.Topics.{
  topic_status, topic_state, topic_health, topic_security, topic_backup_status, topic_last_auth,
  topic_lock_last,
}
use homekey_household.Models.Json.{Json, int, str, arr, obj, Fields, get}
use homekey_household.Models.Errors.{
  Result, ok, raise, ◌>>=◌, unexpected, protocol_error, no_household,
}
use homekey_household.Models.Guest.{object_or_empty}
use homekey_household.Mqtt.Inbound.{HomeKeyMessage}
use homekey_household.Models.Values.{Writer, truthy_json, or_json, text_of}
use homekey_household.Direct.Health.{set_if, health_from_state}

module _ (w : Writer) where
  unfoldable pub resolve_identity : Fields → Fields → Result (Text × Text)
  unfolding text_of or_json truthy_json object_or_empty
  resolve_identity state info =
      let device = object_or_empty (get info (codes "device")) in
      let household_id = or_json (get state key_household_id) (str []) in
      let node_id = or_json (or_json (get state key_node_id) (get device key_node_id)) (str []) in
      if truthy_json node_id
      then (if truthy_json household_id
          then ok (text_of w household_id, text_of w node_id)
          else raise no_household)
      else raise protocol_error

  -- A message that names the household and the node.
  abbrev pub message_of : Text → Text → Text → Text → Bool → HomeKeyMessage
  message_of household_id node_id subtopic payload retain = record {
    household_id = household_id;
    subtopic = subtopic;
    payload = payload;
    node_id = some node_id;
    qos = 0;
    retain = retain;
    legacy = false;
  }

  abbrev pub when {ℓ} : {A : Type ℓ} → Bool → A → List A
  when test a = if test then a ∷ [] else []

  is_int : Json → Bool
  is_int (int n) = true
  is_int _ = false

  -- The payload of `state`: the fields that the answers hold.
  unfoldable pub identity_of : Fields → Fields → Text → Text → Fields
  unfolding truthy_json or_json set_if is_int object_or_empty
  identity_of state info household_id node_id =
      let device = object_or_empty (get info (codes "device")) in
      let ids =
        Fields.field key_household_id (str household_id)
          (Fields.field key_node_id (str node_id) Fields.end) in
      let name = or_json (get state key_node_name) (get device key_node_name) in
      let role = get state key_node_role in
      let node_state = get state key_node_state in
      let generation = get state key_generation in
      let firmware = get state (codes "firmware") in
      set_if (truthy_json firmware) key_firmware firmware (
        set_if (is_int generation) key_generation generation (
          set_if (truthy_json node_state) key_node_state node_state (
            set_if (truthy_json role) key_node_role role
              (set_if (truthy_json name) key_node_name name ids))))

  -- `isinstance(value, str) and value in set(…)`
  unfoldable pub plain_messages : Json → List Text → (Text → HomeKeyMessage) → List HomeKeyMessage
  plain_messages (str s) words message = when (member s words) (message s)
  plain_messages _ words message = []

  -- `lock_last`, where it is an object with a source
  unfoldable pub lock_messages : Json → (Text → HomeKeyMessage) → List HomeKeyMessage
  unfolding truthy_json
  lock_messages (obj fs) message =
      when (truthy_json (get fs key_lock_source)) (message (w.dumps (obj fs)))
  lock_messages _ message = []

  -- `last_auth["result"] in set(AuthResult)`: a list or an object has no hash, and raises.
  unfoldable pub is_auth_result : Json → Result Bool
  is_auth_result (str s) = ok (member s auth_results)
  is_auth_result (arr vs) = raise unexpected
  is_auth_result (obj fs) = raise unexpected
  is_auth_result _ = ok false

  unfoldable pub auth_messages : Json → (Text → HomeKeyMessage) → Result (List HomeKeyMessage)
  unfolding is_auth_result
  auth_messages (obj fs) message = do
    known ← is_auth_result (get fs key_auth_result)
    ok (when known (message (w.dumps (obj fs))))
  auth_messages _ message = ok []

  -- The messages in their order, with those of `last_auth` at the end.
  unfoldable pub listed_messages :
      Fields → Fields → Text → Text → Fields → List HomeKeyMessage → List HomeKeyMessage
  unfolding identity_of plain_messages lock_messages
  listed_messages state info household_id node_id health auth =
      let message = message_of household_id node_id in
      message topic_status (codes "online") true
      ∷ (lock_messages (get state (codes "lock_last"))
            (λ payload. message topic_lock_last payload true)
          ++ (message topic_state (w.dumps (obj (identity_of state info household_id node_id))) true
              ∷ message topic_health (w.dumps (obj health)) false
              ∷ (plain_messages (get state (codes "security")) security_states
                    (λ word. message topic_security word true)
                  ++ (plain_messages (get state (codes "backup_status")) backup_outcomes
                        (λ word. message topic_backup_status word true)
                      ++ auth))))

  unfoldable pub state_to_messages : Fields → Fields → Text → Text → Result (List HomeKeyMessage)
  unfolding health_from_state listed_messages auth_messages
  state_to_messages state info household_id node_id = do
    health ← health_from_state state
    auth ←
        auth_messages (get state (codes "last_auth"))
          (λ payload. message_of household_id node_id topic_last_auth payload true)
    ok (listed_messages state info household_id node_id health auth)
