-- ===== src/Models/State.antt =====
-- models.py, `NodeState`: the payload of `B/state`.
use homekey_household.Prelude.{Text, codes, or_text, Option, ℤ}
use homekey_household.Const.Words.{
  key_node_name, key_node_role, key_node_state, key_generation, key_firmware, role_other,
}
use homekey_household.Models.Json.{Json}
use homekey_household.Models.Errors.{Result, ok, ◌>>=◌, ◌>>◌}
use homekey_household.Models.Validators.{require_dict, require_identity, optional_str, optional_int}

pub record NodeState : Type 0 where
  pub household_id : Text
  pub node_id : Text
  pub node_name : Text
  pub node_role : Text
  pub node_state : Text
  pub generation : Option ℤ
  pub firmware_version : Option Text

unfoldable pub from_dict : Json → Text → Text → Result NodeState
from_dict payload household_id node_id = do
  d ← require_dict payload (codes "state")
  require_identity d household_id node_id (codes "state")
  name ← optional_str d key_node_name
  role ← optional_str d key_node_role
  state ← optional_str d key_node_state
  generation ← optional_int d key_generation
  firmware ← optional_str d key_firmware
  ok (record {
    household_id = household_id;
    node_id = node_id;
    node_name = or_text name node_id;
    node_role = or_text role role_other;
    node_state = or_text state (codes "UNKNOWN");
    generation = generation;
    firmware_version = firmware;
  })
