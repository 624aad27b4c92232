-- ===== src/Coordinator/Store.antt =====
-- coordinator.py: what the coordinator keeps, the node registry and the pool that survives a reload.
use homekey_household.Prelude.{
  ℕ, Text, member, Dict, lookup, insert, keys, Bool, Option, none, some, List, [], ◌∷◌, ◌++◌, ℤ,
  if◌then◌else◌,
}
use homekey_household.Models.Json.{Json}
use homekey_household.Models.Errors.{Result}
use homekey_household.Models.Validators.{Clock}
use homekey_household.Models.Node.{Node, new_node}

-- An entry that `async_log_entry` was given; its name and domain are constants.
pub record LogEntry : Type 0 where
  pub message : Text
  pub entity_id : Option Text
  pub context : ℕ

-- `dt_util.parse_datetime`: no date-time, an exception, or the microseconds since the epoch, where
-- a time without a zone is read as UTC.
pub data ParsedTime : Type 0 where
  not_datetime : ParsedTime
  bad_datetime : ParsedTime
  stamp : ℤ → ParsedTime

-- The libraries that the coordinator calls.
pub record Platform : Type 0 where
  -- `json.loads`: `invalid_json` stands for ValueError, `unexpected` for any other exception
  pub loads : Text → Result Json
  pub clock : Clock
  pub parse_datetime : Text → ParsedTime
  -- whether `async_log_entry` raises
  pub log_raises : LogEntry → Bool
  -- `registry.async_get_entity_id("lock", DOMAIN, …)`; `none` also where it raises
  pub entity_id_of : Text → Option Text

-- The time of one call: `utcnow()` in microseconds, and `_now_iso()`.
pub record Moment : Type 0 where
  pub now : ℤ
  pub now_iso : Text

-- What the entities were shown by one `async_set_updated_data`.
pub record Update : Type 0 where
  pub nodes : Dict Node
  pub contexts : Dict ℕ

-- A `Context()` is the number of contexts that were made before it.
pub record Coordinator : Type 0 where
  pub household_id : Text
  pub nodes : Dict Node
  pub known_node_ids : List Text
  pub pool : Option (Dict Node)
  pub pending_contexts : Dict ℕ
  pub next_context : ℕ
  pub logbook : List LogEntry
  pub updates : List Update

-- `self._data.nodes[node_id] = node`, and what a write to a field of the stored object does.
abbrev pub put_node : Text → Node → Coordinator → Coordinator
put_node node_id n c = record c { nodes = insert node_id n c.nodes }

-- `known.add(node_id)`
abbrev pub add_known : Text → List Text → List Text
add_known node_id known = if member node_id known then known else known ++ (node_id ∷ [])

-- `_maybe_schedule_reload`
unfoldable pub register : Text → Coordinator → Coordinator
register node_id c = record c { known_node_ids = add_known node_id c.known_node_ids }

-- The node that `_ensure_node` returns, and the state after it.
unfoldable pub ensured : Text → Coordinator → Node
unfolding new_node
ensured node_id c = elim (lookup node_id c.nodes) [
  | none ↦ new_node node_id c.household_id
  | some n ↦ n
]

unfoldable pub ensure_node : Text → Coordinator → Coordinator
unfolding new_node register
ensure_node node_id c = elim (lookup node_id c.nodes) [
  | none ↦ register node_id (put_node node_id (new_node node_id c.household_id) c)
  | some n ↦ c
]

-- `new if new is not None else old`
abbrev pub or_kept {ℓ} : {A : Type ℓ} → Option A → Option A → Option A
or_kept none old = old
or_kept (some a) old = some a

-- The fields that `_merge_node` writes to the node that is there.
unfoldable pub merged : Node → Node → Node
merged incoming existing = record existing {
  node_name = incoming.node_name;
  node_role = incoming.node_role;
  node_state = incoming.node_state;
  generation = or_kept incoming.generation existing.generation;
  firmware = or_kept incoming.firmware existing.firmware;
}

unfoldable pub merge_node : Node → Coordinator → Coordinator
unfolding merged register
merge_node incoming c = elim (lookup incoming.node_id c.nodes) [
  | none ↦ register incoming.node_id (put_node incoming.node_id incoming c)
  | some existing ↦ put_node incoming.node_id (merged incoming existing) c
]

-- `_pool_state`
unfoldable pub pool_state : Coordinator → Coordinator
pool_state c = record c { pool = some c.nodes }

-- `async_drop_pooled_state`
unfoldable pub drop_pooled_state : Coordinator → Coordinator
drop_pooled_state c = record c { pool = none }

-- `_data.nodes.update(pooled)`, from an empty registry
abbrev pub pooled_nodes : Option (Dict Node) → Dict Node
pooled_nodes none = []
pooled_nodes (some nodes) = nodes

-- `__init__` with `_restore_pooled_state`, over the pool that `hass.data` holds for the household.
-- The number of contexts made so far goes on.
unfoldable pub start : Text → Option (Dict Node) → ℕ → Coordinator
start household_id pool next_context = record {
  household_id = household_id;
  nodes = pooled_nodes pool;
  known_node_ids = keys (pooled_nodes pool);
  pool = pool;
  pending_contexts = [];
  next_context = next_context;
  logbook = [];
  updates = [];
}
