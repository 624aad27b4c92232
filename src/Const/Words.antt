-- ===== src/Const/Words.antt =====
-- const.py: the keys of the JSON payloads, and the enumerations whose members are compared as texts.
use homekey_household.Prelude.{ℕ, zero, suc, Text, codes, List, [], ◌∷◌, ℤ, pos, negsuc, Dict}

-- Keys of the household payloads.
abbrev pub key_household_id : Text
key_household_id = codes "household_id"

abbrev pub key_node_id : Text
key_node_id = codes "node_id"

abbrev pub key_node_name : Text
key_node_name = codes "node_name"

abbrev pub key_node_role : Text
key_node_role = codes "node_role"

abbrev pub key_node_state : Text
key_node_state = codes "node_state"

abbrev pub key_generation : Text
key_generation = codes "generation"

abbrev pub key_firmware : Text
key_firmware = codes "firmware_version"

abbrev pub key_lock_current : Text
key_lock_current = codes "lock_current"

abbrev pub key_lock_target : Text
key_lock_target = codes "lock_target"

abbrev pub key_security_object : Text
key_security_object = codes "security"

abbrev pub key_status : Text
key_status = codes "status"

abbrev pub key_timestamp : Text
key_timestamp = codes "timestamp"

abbrev pub key_auth_result : Text
key_auth_result = codes "result"

abbrev pub key_lock_source : Text
key_lock_source = codes "source"

-- The states of the lock that the node's LockManager reports.
pub data LockState : Type 0 where
  unlocked locked jammed unknown unlocking locking : LockState

-- The text of a member of `LockState`.
unfoldable pub lock_state_value : LockState → Text
lock_state_value LockState.unlocked = codes "unlocked"
lock_state_value LockState.locked = codes "locked"
lock_state_value LockState.jammed = codes "jammed"
lock_state_value LockState.unknown = codes "unknown"
lock_state_value LockState.unlocking = codes "unlocking"
lock_state_value LockState.locking = codes "locking"

-- `LOCK_STATE_MAP.get(current, LockState.UNKNOWN)`
unfoldable pub lock_state_of : ℤ → LockState
lock_state_of (pos zero) = LockState.unlocked
lock_state_of (pos (suc zero)) = LockState.locked
lock_state_of (pos (suc (suc zero))) = LockState.jammed
lock_state_of (pos (suc (suc (suc zero)))) = LockState.unknown
lock_state_of (pos (suc (suc (suc (suc zero))))) = LockState.unlocking
lock_state_of (pos (suc (suc (suc (suc (suc zero)))))) = LockState.locking
lock_state_of (pos (suc (suc (suc (suc (suc (suc n))))))) = LockState.unknown
lock_state_of (negsuc n) = LockState.unknown

abbrev pub role_other : Text
role_other = codes "other"

abbrev pub security_states : List Text
security_states = codes "OK" ∷ codes "WARNING" ∷ codes "ERROR" ∷ []

abbrev pub backup_outcomes : List Text
backup_outcomes = codes "completed" ∷ codes "failed" ∷ []

abbrev pub auth_results : List Text
auth_results = codes "SUCCESS" ∷ codes "FAILURE" ∷ []

abbrev pub source_homekey : Text
source_homekey = codes "homekey"

-- `set(LockSource)`
abbrev pub lock_sources : List Text
lock_sources =
    codes "homekit"
    ∷ source_homekey
    ∷ codes "mqtt"
    ∷ codes "api"
    ∷ codes "device"
    ∷ codes "unknown"
    ∷ []

-- The sources that identify something at the door.
abbrev pub device_initiated_sources : List Text
device_initiated_sources = codes "homekit" ∷ source_homekey ∷ codes "device" ∷ []

abbrev pub lock_source_labels : Dict Text
lock_source_labels =
    (codes "homekit", codes "HomeKit")
    ∷ (source_homekey, codes "a HomeKey credential")
    ∷ (codes "device", codes "the device")
    ∷ (codes "mqtt", codes "MQTT")
    ∷ (codes "api", codes "the device API")
    ∷ (codes "unknown", codes "an unknown source")
    ∷ []

abbrev pub lock_event_max_age_seconds : ℕ
lock_event_max_age_seconds = 300

abbrev pub guest_seconds_per_day : ℕ
guest_seconds_per_day = 86400

-- The alphabet of household and node ids.
abbrev pub id_safe_chars : Text
id_safe_chars = codes "abcdefghijklmnopqrstuvwxyzABCDEFGHIJKLMNOPQRSTUVWXYZ0123456789_-"
