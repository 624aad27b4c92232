-- ===== src/Tests/Direct.antt =====
-- Polls of a node without a broker, and the discovery of nodes.
use homekey_household.Prelude.{
  arith, inl, inr, text_eq, lookup, Text, codes, member, true, false, none, some, List, [], ◌∷◌,
  All, ◌≡◌, refl, pos,
}
use homekey_household.Models.Json.{int, str, obj, Fields, end, field}
use homekey_household.Models.Errors.{ok, transport_failed}
use homekey_household.Mqtt.Inbound.{HomeKeyMessage}
use homekey_household.Coordinator.Registry.{IsValid}
use homekey_household.Models.Values
use homekey_household.Models.Values.{Writer}
use homekey_household.Direct.Payloads
use homekey_household.Direct.Health
use homekey_household.Direct.Payloads.{state_to_messages}
use homekey_household.Direct.Health.{health_from_state, is_not_reported}
use homekey_household.Direct.Client
use homekey_household.Direct.Client.{Exchange, get_guest}
use homekey_household.Direct.Poller
use homekey_household.Direct.Poller.{
  Poller, Poll, new_poller, read_node, poll_safely, run_polls, feed, feed_guest,
}
use homekey_household.Direct.Offline.{IsFailed}
use homekey_household.Direct.Unavailable.{third_failure_unavailable}
use homekey_household.Models.Node.{Node, available}
use homekey_household.Direct.Recovery.{IsAway, quiet_polls_keep}
use homekey_household.Direct.Feed.{Brought, state_to_messages-on_message}
use homekey_household.Discovery.{passes, nothing_added}
use homekey_household.Discovery.Once.{Distinct, joined, entities_of, passes_once}
use homekey_household.Tests.Data.{
  writer, program, home, gate, garage, with_json, noon, fresh, described,
}

-- What the polls compute with.
unfoldable answers : Unit {0}
unfolding program Values.truthy_json Payloads.resolve_identity Payloads.state_to_messages
    Health.health_from_state Health.health_payload_from_state Health.set_if Health.object_of
    Payloads.listed_messages Payloads.auth_messages Payloads.identity_of Client.request
    Client.get_guest Poller.read_node Values.mapping Poller.is_caught Health.is_not_reported
    Poller.new_poller
answers = tt

abbrev unreported : Fields
unreported = field (codes "lock_current") (int (pos 255)) end

abbrev identity : Fields
identity = field (codes "household_id") (str home) (
    field (codes "node_id") (str gate)
      (field (codes "security") (str (codes "OK")) (field (codes "health") (obj unreported) end)))

abbrev answered : Poll
answered = record {
  info = Exchange.response 200 (ok (obj end));
  state = Exchange.response 200 (ok (obj identity));
  guest = Exchange.timed_out;
  times = λ i. noon;
}

abbrev unanswered : Poll
unanswered = record answered { state = Exchange.timed_out }

abbrev started : Poller
started = record (new_poller home fresh) { node_id = some gate }

abbrev elsewhere : Poller
elsewhere = new_poller (codes "HOME-002") fresh

unanswered-IsFailed : IsFailed (with_json described) writer unanswered
unfolding answers
unanswered-IsFailed = record { error = transport_failed; failed = refl; caught = refl }

fresh-IsValid : IsValid fresh
unfolding program
fresh-IsValid = record { filed = λ k n h. cc; known = refl }

third_failure_unavailable_example :
    (n : Node) × (lookup gate
        (run_polls
          (with_json described)
          writer
          (unanswered ∷ unanswered ∷ unanswered ∷ [])
          started).coordinator.nodes
      ≡ some n)
    × (available n ≡ false)
unfolding answers
third_failure_unavailable_example =
    third_failure_unavailable (with_json described) writer unanswered unanswered unanswered []
      started gate (unanswered-IsFailed, (unanswered-IsFailed, (unanswered-IsFailed, tt))) refl refl
      refl refl

abbrev sample : HomeKeyMessage
sample = Payloads.message_of writer home gate (codes "status") (codes "online") true

abbrev sample_messages : List HomeKeyMessage
sample_messages =
    sample
    ∷ record sample { subtopic = codes "state"; payload = codes "{}" }
    ∷ record sample { subtopic = codes "health"; payload = codes "{}"; retain = false }
    ∷ record sample { subtopic = codes "security"; payload = codes "OK" }
    ∷ []

-- A poller of another household, with two failures before each answer.
quiet_polls_keep_example :
    let q =
      run_polls
        (with_json described)
        writer
        (unanswered ∷ unanswered ∷ answered ∷ unanswered ∷ unanswered ∷ [])
        elsewhere in
    (q.coordinator ≡ elsewhere.coordinator) × (q.node_id ≡ elsewhere.node_id)
unfolding answers text_eq
quiet_polls_keep_example =
    let failed = unanswered-IsFailed in
    let away : IsAway (with_json described) writer (codes "HOME-002") answered = record {
      info = end;
      state = identity;
      household_id = home;
      node_id = gate;
      read = refl;
      away = refl;
    } in
    quiet_polls_keep (with_json described) writer
      (unanswered ∷ unanswered ∷ answered ∷ unanswered ∷ unanswered ∷ []) elsewhere
      (inr (
        failed,
        omega arith,
        inr (
          failed,
          omega arith,
          inl (away, inr (failed, omega arith, inr (failed, omega arith, tt))),
        ),
      ))

state_to_messages-on_message_example : All (Brought home none home gate) sample_messages
unfolding answers
state_to_messages-on_message_example =
    state_to_messages-on_message writer home none home gate refl refl identity end sample_messages
      refl

abbrev one_lock : Text → List Text
one_lock node_id = node_id ∷ []

passes_once_example :
    let a = passes one_lock ((gate ∷ []) ∷ (gate ∷ garage ∷ []) ∷ []) (nothing_added one_lock) in
    Distinct a.seen
    × (joined a.added ≡ entities_of one_lock a.seen)
    × ((k : Text) → member k a.seen ≡ member k (joined ((gate ∷ []) ∷ (gate ∷ garage ∷ []) ∷ [])))
passes_once_example = passes_once one_lock ((gate ∷ []) ∷ (gate ∷ garage ∷ []) ∷ [])
