-- ===== src/Models/Values.antt =====
-- What Python does with any JSON value: truth, `or`, `str` and `.get`.
use homekey_household.Prelude.{
  ◌^◌, Text, truthy, Option, none, some, ◌==◌, Bool, true, false, not, ◌||◌, pos, int_eq,
  if◌then◌else◌,
}
use homekey_household.Models.Json.{Json, null, bool, int, float, str, arr, obj, Items, Fields}
use homekey_household.Models.Errors.{Result, ok, raise, unexpected}

-- The library's ways to write a value.
pub record Writer : Type 0 where
  -- `json.dumps`
  pub dumps : Json → Text
  -- `str(value)` of a value that is no text
  pub shown : Json → Text

-- `if value`
unfoldable pub truthy_json : Json → Bool
truthy_json null = false
truthy_json (bool b) = b
truthy_json (int n) = not (int_eq n (pos 0))
truthy_json (float x) = not (x == 0 || x == 2 ^ 63)
truthy_json (str s) = truthy s
truthy_json (arr Items.nil) = false
truthy_json (arr (Items.cons v vs)) = true
truthy_json (obj Fields.end) = false
truthy_json (obj (Fields.field k v fs)) = true

-- `a or b`
unfoldable pub or_json : Json → Json → Json
unfolding truthy_json
or_json a b = if truthy_json a then a else b

-- An answer is read with `.get`, which only an object has.
unfoldable pub mapping : Json → Result Fields
mapping (obj fs) = ok fs
mapping _ = raise unexpected

-- `str(value)`
unfoldable pub text_of : Writer → Json → Text
text_of w (str s) = s
text_of w v = w.shown v

-- `value is True`
unfoldable pub is_true_json : Json → Bool
is_true_json (bool b) = b
is_true_json _ = false

-- `isinstance(value, str) and value`
unfoldable pub text_or_none : Json → Option Text
text_or_none (str s) = if truthy s then some s else none
text_or_none _ = none

-- `isinstance(value, dict)`
unfoldable pub object_or_none : Json → Option Fields
object_or_none (obj fs) = some fs
object_or_none _ = none
