-- ===== src/Tests/Coordinator.antt =====
-- Runs of the coordinator, and its theorems at concrete messages.
use homekey_household.Prelude.{codes, lookup, keys, [], ◌∷◌, ◌≡◌, refl}
use homekey_household.Const.Topics.{topic_status, topic_health}
use homekey_household.Models.Errors.{ok, raise, expected_string}
use homekey_household.Models.Node.{Node, new_node}
use homekey_household.Coordinator.Store.{Coordinator, ensured, start}
use homekey_household.Mqtt.Inbound.{HomeKeyMessage}
use homekey_household.Coordinator.Dispatch.{dispatch, handle_message, handle_all}
use homekey_household.Coordinator.Registry.{IsValid}
use homekey_household.Coordinator.Invariant.{handle_all-IsValid}
use homekey_household.Coordinator.Frame.{dispatch_frame}
use homekey_household.Coordinator.Rejection.{Preserves, rejected-Preserves}
use homekey_household.Coordinator.Publication.{
  IsPublished, Recoverable, dispatch-IsPublished, reload_keeps, handle_all-Recoverable,
}
use homekey_household.Tests.Data.{
  program, home, gate, garage, with_json, noon, one, message, tapped, locked, fresh,
}

abbrev online : HomeKeyMessage
online = message topic_status (codes " Online")

abbrev health : HomeKeyMessage
health = message topic_health (codes "{}")

abbrev with_gate : Coordinator
with_gate = handle_message (with_json locked) noon online fresh

fresh-IsValid : IsValid fresh
unfolding program
fresh-IsValid = record { filed = λ k n e. absurd (cc); known = refl }

-- A gate that comes online is filed under its id, and shown as available.
comes_online : keys with_gate.nodes ≡ gate ∷ []
unfolding program
comes_online = refl

handle_all-IsValid_example :
    IsValid (handle_all (with_json locked) ((noon, online) ∷ (one, health) ∷ []) fresh)
handle_all-IsValid_example =
    handle_all-IsValid (with_json locked) ((noon, online) ∷ (one, health) ∷ []) fresh fresh-IsValid

dispatch_frame_example :
    (lookup garage (dispatch (with_json locked) noon health with_gate).1.nodes
      ≡ lookup garage with_gate.nodes)
    × ((dispatch (with_json locked) noon health with_gate).1.household_id ≡ with_gate.household_id)
unfolding program
dispatch_frame_example = dispatch_frame (with_json locked) noon health with_gate garage refl

-- A snapshot without the required `mqtt` is refused, and registers the gate nevertheless.
bad_health :
    (dispatch (with_json tapped) noon health fresh).0 ≡ raise (expected_string (codes "mqtt"))
unfolding program
bad_health = refl

bad_health_registers : keys (dispatch (with_json tapped) noon health fresh).1.nodes ≡ gate ∷ []
unfolding program
bad_health_registers = refl

rejected-Preserves_example : Preserves fresh (dispatch (with_json tapped) noon health fresh).1
rejected-Preserves_example =
    rejected-Preserves (with_json tapped) noon health fresh (expected_string (codes "mqtt"))
      bad_health

good_health : (dispatch (with_json locked) noon health with_gate).0 ≡ ok tt
unfolding program
good_health = refl

dispatch-IsPublished_example :
    IsPublished with_gate (dispatch (with_json locked) noon health with_gate).1
unfolding program
dispatch-IsPublished_example =
    dispatch-IsPublished (with_json locked) noon health with_gate good_health (λ e. cc)

reload_keeps_example :
    let c' = (dispatch (with_json locked) noon health fresh).1 in
    let d = start c'.household_id c'.pool c'.next_context in
    (d.nodes ≡ c'.nodes) × (d.known_node_ids ≡ c'.known_node_ids) × IsValid d
unfolding program
reload_keeps_example =
    reload_keeps (with_json locked) noon health fresh fresh-IsValid refl (λ e. cc)

fresh-Recoverable : Recoverable fresh
unfolding program
fresh-Recoverable = record { pooled = λ k n e. absurd (cc) }

handle_all-Recoverable_example :
    Recoverable (handle_all (with_json tapped) ((noon, health) ∷ (one, online) ∷ []) fresh)
handle_all-Recoverable_example =
    handle_all-Recoverable (with_json tapped) ((noon, health) ∷ (one, online) ∷ []) fresh
      fresh-Recoverable

abbrev gate_node : Node
gate_node = ensured gate with_gate

abbrev described_node : Node
described_node = record (new_node gate home) { node_name = codes "Gate" }
