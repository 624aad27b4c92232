-- ===== src/Models/Validators.antt =====
-- models.py: the primitive validators, the ids and the identity of a payload.
use homekey_household.Prelude.{
  ℕ, Text, text_eq, truthy, leb, length, all, Bool, false, ◌||◌, ◌==◌, Option, none, some, [], ◌∷◌,
  ℤ, if◌then◌else◌,
}
use homekey_household.Const.Words.{key_household_id, key_node_id, id_safe_chars}
use homekey_household.Models.Json.{Json, null, bool, int, float, str, arr, obj, Fields, get, has}
use homekey_household.Models.Errors.{
  Result, ok, raise, ◌>>=◌, ◌>>◌, guard, expected_object, expected_string, must_not_be_empty,
  expected_boolean, expected_integer, invalid_timestamp, invalid_timestamp_type, too_long,
  invalid_characters, does_not_match,
}

unfoldable pub require_dict : Json → Text → Result Fields
require_dict (obj fs) where' = ok fs
require_dict _ where' = raise (expected_object where')

-- The value of a field, checked.
unfoldable pub as_str : Text → Json → Result Text
as_str key (str s) = if truthy s then ok s else raise (must_not_be_empty key)
as_str key _ = raise (expected_string key)

-- Every call of the program leaves `allow_empty` at its default, false.
unfoldable pub require_str : Fields → Text → Result Text
unfolding as_str get
require_str d key = as_str key (get d key)

unfoldable pub as_optional_str : Json → Text → Result (Option Text)
as_optional_str null where' = ok none
as_optional_str (str s) where' = ok (some s)
as_optional_str _ where' = raise (expected_string where')

unfoldable pub optional_str : Fields → Text → Result (Option Text)
unfolding as_optional_str get
optional_str d key = as_optional_str (get d key) key

as_optional_bool : Text → Json → Result (Option Bool)
as_optional_bool key null = ok none
as_optional_bool key (bool b) = ok (some b)
as_optional_bool key _ = raise (expected_boolean key)

unfoldable pub optional_bool : Fields → Text → Result (Option Bool)
unfolding as_optional_bool get
optional_bool d key = as_optional_bool key (get d key)

-- A Boolean is an `int` in Python, and is refused like any other value.
unfoldable pub as_optional_int : Text → Json → Result (Option ℤ)
as_optional_int key null = ok none
as_optional_int key (int n) = ok (some n)
as_optional_int key _ = raise (expected_integer key)

unfoldable pub optional_int : Fields → Text → Result (Option ℤ)
unfolding as_optional_int get
optional_int d key = as_optional_int key (get d key)

-- `datetime.fromtimestamp(float(value), tz=UTC).isoformat()`, of an int and of a float: `none` where
-- it raises OverflowError, OSError or ValueError.
pub record Clock : Type 0 where
  pub iso_of_int : ℤ → Option Text
  pub iso_of_float : ℕ → Option Text

checked_iso : Option Text → Text → Result (Option Text)
checked_iso none where' = raise (invalid_timestamp where')
checked_iso (some iso) where' = ok (some iso)

unfoldable pub normalise_timestamp : Clock → Json → Text → Result (Option Text)
unfolding checked_iso
normalise_timestamp clock null where' = ok none
normalise_timestamp clock (bool b) where' = raise (invalid_timestamp where')
normalise_timestamp clock (int n) where' = checked_iso (clock.iso_of_int n) where'
normalise_timestamp clock (float x) where' = checked_iso (clock.iso_of_float x) where'
normalise_timestamp clock (str s) where' = ok (some s)
normalise_timestamp clock (arr _) where' = raise (invalid_timestamp_type where')
normalise_timestamp clock (obj _) where' = raise (invalid_timestamp_type where')

-- `ch in _ID_SAFE_CHARS`
unfoldable pub char_in : Text → ℕ → Bool
char_in [] c = false
char_in (d ∷ s) c = d == c || char_in s c

unfoldable pub validate_id : Text → Text → ℕ → Result Text
unfolding char_in
validate_id value field_name max_len = do
  guard (truthy value) (must_not_be_empty field_name)
  guard (leb (length value) max_len) (too_long field_name)
  guard (all (char_in id_safe_chars) value) (invalid_characters field_name)
  ok value

-- `payload != topic` for one identity field that has to be there
unfoldable pub require_match : Fields → Text → Text → Text → Result (Unit {0})
unfolding require_str
require_match d key expected where' = do
  got ← require_str d key
  guard (text_eq got expected) (does_not_match where' key)

-- the same where the field is there
unfoldable pub validate_match : Fields → Text → Text → Text → Result (Unit {0})
unfolding require_match has
validate_match d key expected where' =
    if has d key then require_match d key expected where' else ok tt

-- Every call gives a node id, so the `node_id is not None` test always passes.
unfoldable pub validate_identity : Fields → Text → Text → Text → Result (Unit {0})
unfolding validate_match
validate_identity d household_id node_id where' = do
  validate_match d key_household_id household_id where'
  validate_match d key_node_id node_id where'

unfoldable pub require_identity : Fields → Text → Text → Text → Result (Unit {0})
unfolding require_match
require_identity d household_id node_id where' = do
  require_match d key_household_id household_id where'
  require_match d key_node_id node_id where'
