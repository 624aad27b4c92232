-- ===== src/Direct/Poller.antt =====
-- direct.py, `DirectPoller`: the polls, the failures in a row, and the node that goes offline.
use homekey_household.Prelude.{
  ℕ, suc, ◌==◌, length, Text, codes, text_eq, truthy, Bool, true, false, ◌&&◌, Option, none, some,
  List, [], ◌∷◌, if◌then◌else◌,
}
use homekey_household.Const.Topics.{topic_status, topic_guest_status}
use homekey_household.Models.Json.{Json, null, Fields}
use homekey_household.Models.Errors.{Error, Result, ok, raise, ◌>>=◌, unexpected}
use homekey_household.Mqtt.Inbound.{HomeKeyMessage}
use homekey_household.Coordinator.Store.{Platform, Moment, Coordinator}
use homekey_household.Coordinator.Dispatch.{handle_message}
use homekey_household.Direct.Payloads.{resolve_identity, state_to_messages, message_of}
use homekey_household.Models.Values.{Writer, mapping}
use homekey_household.Direct.Client.{Exchange, request, get_guest}

pub record Poller : Type 0 where
  pub household_id : Text
  pub node_id : Option Text
  pub failures : ℕ
  pub mismatch_logged : Bool
  pub coordinator : Coordinator

-- What one poll meets: the ends of its three requests, and the time of each message it hands on.
pub record Poll : Type 0 where
  pub info : Exchange
  pub state : Exchange
  pub guest : Exchange
  pub times : ℕ → Moment

unfoldable pub new_poller : Text → Coordinator → Poller
new_poller household_id c = record {
  household_id = household_id;
  node_id = none;
  failures = 0;
  mismatch_logged = false;
  coordinator = c;
}

-- `DIRECT_OFFLINE_AFTER_FAILURES`
abbrev pub offline_after : ℕ
offline_after = 3

-- `except (DirectTransportError, ValidationError)`
unfoldable pub is_caught : Error → Bool
is_caught unexpected = false
is_caught _ = true

module _ (p : Platform) (w : Writer) where
  unfoldable pub feed : (ℕ → Moment) → List HomeKeyMessage → Coordinator → Coordinator
  feed times [] c = c
  feed times (msg ∷ rest) c = feed (λ i. times (suc i)) rest (handle_message p (times 0) msg c)

  -- The guest state, which never fails a poll.
  unfoldable pub feed_guest : Text → Text → Moment → Result Json → Coordinator → Coordinator
  feed_guest household_id node_id m (raise e) c = c
  feed_guest household_id node_id m (ok null) c = c
  feed_guest household_id node_id m (ok guest) c =
      handle_message p m (message_of w household_id node_id topic_guest_status (w.dumps guest) true)
        c

  -- What the two answers say: the household, the node, and the messages that are made of them.
  unfoldable pub read_node : Poll → Result ((Fields × Fields) × (Text × Text))
  unfolding request mapping resolve_identity
  read_node poll = do
    info_value ← request poll.info
    state_value ← request poll.state
    info ← mapping info_value
    state ← mapping state_value
    ids ← resolve_identity w state info
    ok ((info, state), ids)

  -- The messages of a node of this household.
  unfoldable pub take_messages :
      Poll → Text → Text → Result (List HomeKeyMessage) → Poller → Result (Unit {0}) × Poller
  unfolding feed feed_guest get_guest
  take_messages poll household_id node_id (raise e) q =
      (raise e, record q { node_id = some node_id })
  take_messages poll household_id node_id (ok messages) q = (
    ok tt,
    record q {
      node_id = some node_id;
      failures = 0;
      coordinator =
          feed_guest household_id node_id (poll.times (length messages)) (get_guest poll.guest)
            (feed poll.times messages q.coordinator);
    },
  )

  unfoldable pub take_node :
      Poll → Result ((Fields × Fields) × (Text × Text)) → Poller → Result (Unit {0}) × Poller
  unfolding take_messages state_to_messages
  take_node poll (raise e) q = (raise e, q)
  take_node poll (ok ((info, state), (household_id, node_id))) q =
      if text_eq household_id q.household_id
      then take_messages poll household_id node_id
          (state_to_messages w state info household_id node_id) q
      else (ok tt, record q { mismatch_logged = true })

  -- `async_poll_once`
  unfoldable pub poll_once : Poll → Poller → Result (Unit {0}) × Poller
  unfolding read_node take_node
  poll_once poll q = take_node poll (read_node poll) q

  -- `_async_mark_offline`
  unfoldable pub mark_offline : Moment → Text → Poller → Poller
  mark_offline m node_id q = record q {
    coordinator =
        handle_message p m (message_of w q.household_id node_id topic_status (codes "offline") true)
          q.coordinator;
  }

  -- `self._failures == DIRECT_OFFLINE_AFTER_FAILURES and self._node_id`
  unfoldable pub after_failure : Moment → Poller → Poller
  unfolding mark_offline
  after_failure m q = elim q.node_id [
    | none ↦ q
    | some node_id ↦
        if q.failures == offline_after && truthy node_id then mark_offline m node_id q else q
  ]

  -- `async_poll_safely`. An exception that it does not catch reaches the caller.
  unfoldable pub settle : Moment → Result (Unit {0}) × Poller → Result (Unit {0}) × Poller
  unfolding after_failure is_caught
  settle m (ok u, q) = (ok tt, record q { failures = 0 })
  settle m (raise e, q) =
      if is_caught e
      then (ok tt, after_failure m (record q { failures = suc q.failures }))
      else (raise e, q)

  unfoldable pub poll_safely : Poll → Poller → Result (Unit {0}) × Poller
  unfolding settle poll_once
  poll_safely poll q = settle (poll.times 0) (poll_once poll q)

  -- The ticks of the interval, one after the other.
  unfoldable pub run_polls : List Poll → Poller → Poller
  run_polls [] q = q
  run_polls (poll ∷ rest) q = run_polls rest (poll_safely poll q).1
