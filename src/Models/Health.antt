-- ===== src/Models/Health.antt =====
-- models.py, `NodeHealth`: the payload of `B/health`.
use homekey_household.Prelude.{Text, codes, or_text, Bool, Option, none, some, ℤ}
use homekey_household.Const.Words.{
  LockState, lock_state_of, key_lock_current, key_lock_target, key_firmware, key_security_object,
}
use homekey_household.Models.Json.{Json, null, obj, Fields, end, get}
use homekey_household.Models.Errors.{Result, ok, raise, ◌>>=◌, ◌>>◌, expected_object}
use homekey_household.Models.Validators.{
  require_dict, validate_identity, require_str, optional_str, optional_int, optional_bool,
  as_optional_str,
}

pub record NodeHealth : Type 0 where
  pub network : Text
  pub mqtt : Text
  pub nfc : Text
  pub certificate : Text
  pub mqtt_error : Option ℤ
  pub lock_current : Option ℤ
  pub lock_target : Option ℤ
  pub backup : Option Text
  pub firmware_version : Option Text
  pub uptime : Option ℤ
  pub free_heap : Option ℤ
  pub reset_reason : Option Text
  pub security_all_ok : Option Bool
  pub security_warnings : Option Text

-- An absent `security` object reads as an empty one.
unfoldable pub security_object : Json → Result Fields
security_object null = ok end
security_object (obj fs) = ok fs
security_object _ = raise (expected_object (codes "health.security"))

unfoldable pub from_dict : Json → Text → Text → Result NodeHealth
unfolding get
from_dict payload household_id node_id = do
  d ← require_dict payload (codes "health")
  validate_identity d household_id node_id (codes "health")
  security ← security_object (get d key_security_object)
  network ← optional_str d (codes "network")
  mqtt ← require_str d (codes "mqtt")
  nfc ← optional_str d (codes "nfc")
  certificate ← optional_str d (codes "certificate")
  mqtt_error ← optional_int d (codes "mqtt_error")
  lock_current ← optional_int d key_lock_current
  lock_target ← optional_int d key_lock_target
  backup ← optional_str d (codes "backup")
  firmware ← optional_str d key_firmware
  uptime ← optional_int d (codes "uptime")
  free_heap ← optional_int d (codes "free_heap")
  reset_reason ← as_optional_str (get d (codes "reset_reason")) (codes "reset_reason")
  all_ok ← optional_bool security (codes "all_ok")
  warnings ← as_optional_str (get security (codes "warnings")) (codes "security.warnings")
  ok (record {
    network = or_text network (codes "UNKNOWN");
    mqtt = mqtt;
    nfc = or_text nfc (codes "unknown");
    certificate = or_text certificate (codes "unknown");
    mqtt_error = mqtt_error;
    lock_current = lock_current;
    lock_target = lock_target;
    backup = backup;
    firmware_version = firmware;
    uptime = uptime;
    free_heap = free_heap;
    reset_reason = reset_reason;
    security_all_ok = all_ok;
    security_warnings = warnings;
  })

-- The property `lock_current_state`.
unfoldable pub lock_current_state : NodeHealth → Option LockState
lock_current_state h = elim h.lock_current [ none ↦ none | some n ↦ some (lock_state_of n) ]
