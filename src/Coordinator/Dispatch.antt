-- ===== src/Coordinator/Dispatch.antt =====
-- coordinator.py: `_dispatch` and `async_handle_message`.
use homekey_household.Prelude.{
  Text, text_eq, truthy, member, Bool, true, false, Option, none, some, List, [], ◌∷◌, ◌++◌,
  if◌then◌else◌,
}
use homekey_household.Const.Topics.{
  topic_status, topic_state, topic_health, topic_security, topic_backup_status, topic_backup_last,
  topic_last_auth, topic_guest_status, topic_lock_last, json_subtopics, kind_legacy_status,
}
use homekey_household.Models.Json.{Json, null}
use homekey_household.Models.Errors.{Result, ok, raise}
use homekey_household.Mqtt.Inbound.{HomeKeyMessage}
use homekey_household.Coordinator.Store.{Platform, Moment, Coordinator, pool_state}
use homekey_household.Coordinator.Handlers.{
  Outcome, handle_node_status, handle_legacy_status, handle_security, handle_backup_status,
  handle_state, handle_health, handle_lock_last, handle_backup_last, handle_last_auth,
  handle_guest_status,
}

-- The subtopics that `_dispatch` handles.
pub data Kind : Type 0 where
  legacy_status status state health lock_last security backup_status backup_last : Kind
  last_auth guest_status unhandled : Kind

-- The tests of the `elif` chain, in its order; each also wants a node.
unfoldable pub kind_of : Text → Bool → Kind
kind_of s false = Kind.unhandled
kind_of s true =
    if text_eq s kind_legacy_status
    then Kind.legacy_status
    else if text_eq s topic_status
    then Kind.status
    else if text_eq s topic_state
    then Kind.state
    else if text_eq s topic_health
    then Kind.health
    else if text_eq s topic_lock_last
    then Kind.lock_last
    else if text_eq s topic_security
    then Kind.security
    else if text_eq s topic_backup_status
    then Kind.backup_status
    else if text_eq s topic_backup_last
    then Kind.backup_last
    else if text_eq s topic_last_auth
    then Kind.last_auth
    else if text_eq s topic_guest_status
    then Kind.guest_status
    else Kind.unhandled

-- The branches of the chain; `raw` is the message's text, `payload` the decoded JSON.
unfoldable pub handle : Platform → Moment → Kind → Text → Text → Json → Coordinator → Outcome
handle p m Kind.legacy_status node_id raw payload c = handle_legacy_status m node_id raw c
handle p m Kind.status node_id raw payload c = handle_node_status m node_id raw c
handle p m Kind.state node_id raw payload c = handle_state node_id payload c
handle p m Kind.health node_id raw payload c = handle_health p node_id payload c
handle p m Kind.lock_last node_id raw payload c = handle_lock_last p m node_id payload c
handle p m Kind.security node_id raw payload c = handle_security node_id raw c
handle p m Kind.backup_status node_id raw payload c = handle_backup_status node_id raw c
handle p m Kind.backup_last node_id raw payload c = handle_backup_last p node_id payload c
handle p m Kind.last_auth node_id raw payload c = handle_last_auth p node_id payload c
handle p m Kind.guest_status node_id raw payload c = handle_guest_status node_id payload c
handle p m Kind.unhandled node_id raw payload c = (ok tt, c)

-- `_decode_json` where the contract of the subtopic is JSON; the payload of a message is a text.
unfoldable pub decode : Platform → Text → Text → Result Json
decode p subtopic payload = if member subtopic json_subtopics then p.loads payload else ok null

-- `_pool_state()`, `async_set_updated_data(…)` and `_pending_contexts.clear()`
unfoldable pub publish_update : Coordinator → Coordinator
unfolding pool_state
publish_update c = record (pool_state c) {
  pending_contexts = [];
  updates = c.updates ++ (record { nodes = c.nodes; contexts = c.pending_contexts } ∷ []);
}

-- The end of `_dispatch`: an update is published unless nothing was handled, or a handler raised.
unfoldable pub finish : Kind → Outcome → Outcome
unfolding publish_update
finish Kind.unhandled o = o
finish _ (raise e, c) = (raise e, c)
finish _ (ok u, c) = (ok u, publish_update c)

abbrev pub node_of : Option Text → Text
node_of none = []
node_of (some node_id) = node_id

run_decoded : Platform → Moment → Kind → Text → Text → Result Json → Coordinator → Outcome
unfolding handle finish
run_decoded p m k node_id raw (raise e) c = (raise e, c)
run_decoded p m k node_id raw (ok payload) c = finish k (handle p m k node_id raw payload c)

-- `_dispatch`
unfoldable pub dispatch : Platform → Moment → HomeKeyMessage → Coordinator → Outcome
unfolding run_decoded decode kind_of
dispatch p m msg c =
    let node_id = node_of msg.node_id in
    run_decoded p m (kind_of msg.subtopic (truthy node_id)) node_id msg.payload
      (decode p msg.subtopic msg.payload) c

-- `async_handle_message`: a message of another household is ignored, and an exception is logged.
unfoldable pub handle_message : Platform → Moment → HomeKeyMessage → Coordinator → Coordinator
unfolding dispatch
handle_message p m msg c =
    if text_eq msg.household_id c.household_id then (dispatch p m msg c).1 else c

-- A sequence of messages, each with the time at which it is handled.
unfoldable pub handle_all : Platform → List (Moment × HomeKeyMessage) → Coordinator → Coordinator
handle_all p [] c = c
handle_all p ((m, msg) ∷ rest) c = handle_all p rest (handle_message p m msg c)
