-- ===== src/Backup/Records.antt =====
-- backup.py, `StoredBackup`.
use homekey_household.Prelude.{Text, codes, Bool, Option, none, some, [], ℤ}
use homekey_household.Models.Json.{Json, null, bool, int, str, obj, Fields, end, field, get}
use homekey_household.Models.Values.{
  Writer, or_json, truthy_json, text_of, text_or_none, object_or_none, is_true_json,
}

-- `int | None`, where a Boolean is an int.
pub data NodeTime : Type 0 where
  no_time : NodeTime
  whole : ℤ → NodeTime
  flag : Bool → NodeTime

pub record StoredBackup : Type 0 where
  pub node_id : Text
  pub household_id : Text
  pub created : Text
  pub node_time : NodeTime
  pub blob : Text
  pub includes_credentials : Bool

unfoldable pub time_json : NodeTime → Json
time_json NodeTime.no_time = null
time_json (NodeTime.whole n) = int n
time_json (NodeTime.flag b) = bool b

-- `node_time if isinstance(node_time, int) else None`
unfoldable pub time_of : Json → NodeTime
time_of (int n) = NodeTime.whole n
time_of (bool b) = NodeTime.flag b
time_of _ = NodeTime.no_time

unfoldable pub as_dict : StoredBackup → Json
unfolding time_json
as_dict b = obj (
    field (codes "node_id") (str b.node_id) (
      field (codes "household_id") (str b.household_id) (
        field (codes "created") (str b.created) (
          field (codes "node_time") (time_json b.node_time) (
            field (codes "blob") (str b.blob)
              (field (codes "includes_credentials") (bool b.includes_credentials) end))))))

module _ (w : Writer) where
  -- `str(raw.get(key) or "")`
  unfoldable pub text_at : Fields → Text → Text
  unfolding or_json truthy_json text_of
  text_at fs key = text_of w (or_json (get fs key) (str []))

  -- A record with a blob and a node; both are needed.
  abbrev pub record_of : Fields → Option Text → Option Text → Option StoredBackup
  record_of fs none node_id = none
  record_of fs (some blob) none = none
  record_of fs (some blob) (some node_id) = some (record {
    node_id = node_id;
    household_id = text_at fs (codes "household_id");
    created = text_at fs (codes "created");
    node_time = time_of (get fs (codes "node_time"));
    blob = blob;
    includes_credentials = is_true_json (get fs (codes "includes_credentials"));
  })

  unfoldable pub read_fields : Option Fields → Option StoredBackup
  unfolding text_at time_of is_true_json text_or_none
  read_fields none = none
  read_fields (some fs) =
      record_of fs (text_or_none (get fs (codes "blob"))) (text_or_none (get fs (codes "node_id")))

  -- `from_dict`
  unfoldable pub from_dict : Json → Option StoredBackup
  unfolding object_or_none read_fields
  from_dict raw = read_fields (object_or_none raw)
