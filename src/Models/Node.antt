-- ===== src/Models/Node.antt =====
-- models.py, `Node`: what the coordinator keeps of one node, and its derived properties.
use homekey_household.Prelude.{
  Text, codes, truthy, text_eq, Bool, true, false, ◌&&◌, Option, none, some, ℤ, int_eq,
  if◌then◌else◌,
}
use homekey_household.Const.Words.{LockState, lock_state_of, role_other}
use homekey_household.Models.Json.{Json}
use homekey_household.Models.Errors.{Result, ok, ◌>>=◌}
use homekey_household.Models.State
use homekey_household.Models.Health.{NodeHealth, lock_current_state}
use homekey_household.Models.Records.{BackupRecord, LastAuth, LockChange}
use homekey_household.Models.Guest.{GuestState}

-- `(timestamp, current, source)` of a lock event
pub record EventKey : Type 0 where
  pub timestamp : Option Text
  pub current : ℤ
  pub source : Text

pub record Node : Type 0 where
  pub node_id : Text
  pub household_id : Text
  pub node_name : Text
  pub node_role : Text
  pub node_state : Text
  pub generation : Option ℤ
  pub firmware : Option Text
  pub online : Bool
  pub lwt_online : Option Bool
  pub last_seen : Option Text
  pub health : Option NodeHealth
  pub security : Option Text
  pub backup_status : Option Text
  pub backup : Option BackupRecord
  pub last_auth : Option LastAuth
  pub guest : Option GuestState
  pub lock_change : Option LockChange
  pub lock_change_is_fresh : Bool
  pub attributed_lock_change : Option EventKey

-- `Node(node_id=…, household_id=…)`: the other fields at their defaults, and `__post_init__`, which
-- names the node by its id.
unfoldable pub new_node : Text → Text → Node
new_node node_id household_id = record {
  node_id = node_id;
  household_id = household_id;
  node_name = node_id;
  node_role = role_other;
  node_state = codes "UNKNOWN";
  generation = none;
  firmware = none;
  online = false;
  lwt_online = none;
  last_seen = none;
  health = none;
  security = none;
  backup_status = none;
  backup = none;
  last_auth = none;
  guest = none;
  lock_change = none;
  lock_change_is_fresh = false;
  attributed_lock_change = none;
}

unfoldable pub optional_text_eq : Option Text → Option Text → Bool
optional_text_eq none none = true
optional_text_eq none (some t) = false
optional_text_eq (some s) none = false
optional_text_eq (some s) (some t) = text_eq s t

-- `==` of two event keys
unfoldable pub event_key_eq : EventKey → EventKey → Bool
unfolding optional_text_eq
event_key_eq a b =
    optional_text_eq a.timestamp b.timestamp
    && int_eq a.current b.current
    && text_eq a.source b.source

unfoldable pub key_of_change : LockChange → EventKey
key_of_change c = record { timestamp = c.timestamp; current = c.current; source = c.source }

-- The property `lock_change_key`.
unfoldable pub lock_change_key : Node → Option EventKey
unfolding key_of_change
lock_change_key n = elim n.lock_change [ none ↦ none | some c ↦ some (key_of_change c) ]

snapshot_state : Option NodeHealth → LockState
snapshot_state none = LockState.unknown
snapshot_state (some h) = elim (lock_current_state h) [ none ↦ LockState.unknown | some s ↦ s ]

reported_state : Bool → Option LockChange → Option NodeHealth → LockState
reported_state true (some c) h = lock_state_of c.current
reported_state true none h = snapshot_state h
reported_state false c h = snapshot_state h

-- The property `lock_state`.
unfoldable pub lock_state : Node → LockState
unfolding reported_state snapshot_state lock_current_state
lock_state n = reported_state n.lock_change_is_fresh n.lock_change n.health

is_not_false : Option Bool → Bool
is_not_false none = true
is_not_false (some b) = b

-- The property `available`.
unfoldable pub available : Node → Bool
unfolding is_not_false
available n = if n.online then is_not_false n.lwt_online else false

-- The class method `from_state`. `__post_init__` keeps the name, or takes the id for an empty one.
unfoldable pub from_state : Text → Text → Json → Result Node
unfolding new_node State.from_dict
from_state household_id node_id payload = do
  s ← State.from_dict payload household_id node_id
  ok (record (new_node node_id household_id) {
    node_name = if truthy s.node_name then s.node_name else node_id;
    node_role = s.node_role;
    node_state = s.node_state;
    generation = s.generation;
    firmware = s.firmware_version;
  })
