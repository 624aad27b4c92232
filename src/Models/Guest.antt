-- ===== src/Models/Guest.antt =====
-- models.py, `GuestTag` and `GuestState`: the guest cards of a node.
use homekey_household.Prelude.{
  Text, codes, or_text, Bool, true, false, Option, none, some, List, [], ◌∷◌, ℤ, pos, int_eq, ltb_ℤ,
  if◌then◌else◌,
}
use homekey_household.Models.Json.{Json, null, arr, obj, Items, nil, cons, Fields, end, get}
use homekey_household.Models.Errors.{Result, ok, raise, ◌>>=◌, expected_list}
use homekey_household.Models.Validators.{
  require_dict, require_str, optional_str, optional_int, optional_bool,
}

pub record GuestTag : Type 0 where
  pub tag_id : Text
  pub uid : Text
  pub label : Text
  pub enabled : Bool
  pub valid_from : ℤ
  pub valid_until : ℤ
  pub last_used_at : ℤ
  pub use_count : ℤ

pub record GuestState : Type 0 where
  pub enabled : Bool
  pub default_validity_seconds : ℤ
  pub capacity : ℤ
  pub count : ℤ
  pub wall_clock : ℤ
  pub tags : List GuestTag
  pub write_armed : Bool
  pub can_write : Option Bool
  pub last_write_result : Option Text
  pub last_write_message : Option Text

-- `value or 0`
unfoldable pub or_zero : Option ℤ → ℤ
or_zero none = pos 0
or_zero (some n) = n

-- `value is not False`
unfoldable pub is_not_false : Option Bool → Bool
is_not_false none = true
is_not_false (some b) = b

-- `value is True`
unfoldable pub is_true : Option Bool → Bool
is_true none = false
is_true (some b) = b

-- `expired_at(now)`, at whole seconds
unfoldable pub expired_at : GuestTag → ℤ → Bool
expired_at t now = if int_eq t.valid_until (pos 0) then false else ltb_ℤ t.valid_until now

unfoldable pub tag_from_dict : Json → Result GuestTag
tag_from_dict payload = do
  d ← require_dict payload (codes "guest tag")
  tag_id ← require_str d (codes "tag_id")
  uid ← optional_str d (codes "uid")
  label ← optional_str d (codes "label")
  enabled ← optional_bool d (codes "enabled")
  valid_from ← optional_int d (codes "valid_from")
  valid_until ← optional_int d (codes "valid_until")
  last_used_at ← optional_int d (codes "last_used_at")
  use_count ← optional_int d (codes "use_count")
  ok (record {
    tag_id = tag_id;
    uid = or_text uid [];
    label = or_text label [];
    enabled = is_not_false enabled;
    valid_from = or_zero valid_from;
    valid_until = or_zero valid_until;
    last_used_at = or_zero last_used_at;
    use_count = or_zero use_count;
  })

-- `tuple(GuestTag.from_dict(item) for item in raw_tags)`: the first bad tag raises.
unfoldable pub tags_from : Items → Result (List GuestTag)
tags_from nil = ok []
tags_from (cons item rest) = do tag ← tag_from_dict item; tags ← tags_from rest; ok (tag ∷ tags)

unfoldable pub tags_of : Json → Result (List GuestTag)
unfolding tags_from
tags_of null = ok []
tags_of (arr items) = tags_from items
tags_of _ = raise (expected_list (codes "guest/status.tags"))

-- `write if isinstance(write, dict) else {}`
unfoldable pub object_or_empty : Json → Fields
object_or_empty (obj fs) = fs
object_or_empty _ = end

unfoldable pub from_dict : Json → Result GuestState
unfolding tags_of object_or_empty or_zero is_true get
from_dict payload = do
  d ← require_dict payload (codes "guest/status")
  tags ← tags_of (get d (codes "tags"))
  let write = object_or_empty (get d (codes "write"))
  can_write ← optional_bool write (codes "can_write")
  enabled ← optional_bool d (codes "enabled")
  validity ← optional_int d (codes "default_validity_seconds")
  capacity ← optional_int d (codes "capacity")
  count ← optional_int d (codes "count")
  wall_clock ← optional_int d (codes "wall_clock")
  armed ← optional_bool write (codes "armed")
  last_result ← optional_str write (codes "last_result")
  last_message ← optional_str write (codes "last_message")
  ok (record {
    enabled = is_true enabled;
    default_validity_seconds = or_zero validity;
    capacity = or_zero capacity;
    count = or_zero count;
    wall_clock = or_zero wall_clock;
    tags = tags;
    write_armed = is_true armed;
    can_write = can_write;
    last_write_result = last_result;
    last_write_message = last_message;
  })

-- The property `has_wall_clock`.
unfoldable pub has_wall_clock : GuestState → Bool
has_wall_clock g = ltb_ℤ (pos 0) g.wall_clock
