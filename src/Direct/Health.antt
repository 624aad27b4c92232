-- ===== src/Direct/Health.antt =====
-- direct.py: the health payload of a node's answer.
use homekey_household.Prelude.{
  Text, codes, text_eq, ◌==◌, Bool, true, false, ◌&&◌, pos, int_eq, if◌then◌else◌,
}
use homekey_household.Const.Words.{key_firmware, key_lock_current, key_lock_target}
use homekey_household.Models.Json.{Json, null, bool, int, float, str, arr, obj, Fields, get}
use homekey_household.Models.Values.{truthy_json}
use homekey_household.Models.Errors.{Result, ok, raise, ◌>>=◌, unexpected}

-- `LOCK_STATE_NOT_REPORTED`, also where the document writes it as a float
unfoldable pub is_not_reported : Json → Bool
is_not_reported (int n) = int_eq n (pos 255)
is_not_reported (float x) = x == 0x406FE00000000000
is_not_reported _ = false

-- `payload.pop(key)`; the keys of a `dict` are distinct.
unfoldable pub pop : Text → Fields → Fields
pop key Fields.end = Fields.end
pop key (Fields.field k v fs) =
    let rest = pop key fs in if text_eq k key then rest else Fields.field k v rest

unfoldable pub drop_unreported : Text → Fields → Fields
unfolding is_not_reported pop
drop_unreported key fs = if is_not_reported (get fs key) then pop key fs else fs

-- `payload[key] = value` of a new key, where the test holds
unfoldable pub set_if : Bool → Text → Json → Fields → Fields
set_if test key v fs = if test then append fs else fs
  where
    append : Fields → Fields
    append Fields.end = Fields.field key v Fields.end
    append (Fields.field j w rest) = Fields.field j w (append rest)

-- `state.get(key) or {}`, of which a field is then read
unfoldable pub object_of : Json → Result Fields
unfolding truthy_json
object_of (obj fs) = ok fs
object_of v = if truthy_json v then raise unexpected else ok Fields.end

unfoldable pub ok_or_error : Json → Json
unfolding truthy_json
ok_or_error v = if truthy_json v then str (codes "OK") else str (codes "ERROR")

not_null : Json → Bool
not_null null = false
not_null v = true

unfoldable pub health_payload_from_state : Fields → Result Fields
unfolding object_of ok_or_error set_if not_null truthy_json
health_payload_from_state state = do
  lock ← object_of (get state (codes "lock"))
  reader ← object_of (get state (codes "reader"))
  mqtt ← object_of (get state (codes "mqtt"))
  let base = Fields.field (codes "network") (str (codes "UNKNOWN")) (
      Fields.field (codes "certificate") (str (codes "unknown")) (
        Fields.field (codes "nfc") (ok_or_error (get reader (codes "connected")))
          (Fields.field (codes "mqtt") (ok_or_error (get mqtt (codes "connected"))) Fields.end)))
  let firmware = get state (codes "firmware")
  let available = truthy_json (get lock (codes "available"))
  let current = get lock (codes "current")
  let target = get lock (codes "target")
  let named = set_if (truthy_json firmware) key_firmware firmware base
  let placed = set_if (available && not_null current) key_lock_current current named
  ok (set_if (available && not_null target) key_lock_target target placed)

unfoldable pub health_from_state : Fields → Result Fields
unfolding health_payload_from_state drop_unreported
health_from_state state = elim (get state (codes "health")) [
  | obj health ↦ ok (drop_unreported key_lock_target (drop_unreported key_lock_current health))
  | null ↦ health_payload_from_state state
  | bool b ↦ health_payload_from_state state
  | int n ↦ health_payload_from_state state
  | float x ↦ health_payload_from_state state
  | str s ↦ health_payload_from_state state
  | arr vs ↦ health_payload_from_state state
]
