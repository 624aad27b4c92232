-- ===== src/Models/Records.antt =====
-- models.py, `BackupRecord`, `LastAuth` and `LockChange`: the payloads of `B/backup/last`,
-- `B/last_auth` and `B/lock/last`.
use homekey_household.Prelude.{Text, codes, or_text, member, Option, none, some, ℤ}
use homekey_household.Const.Words.{
  key_status, key_timestamp, key_auth_result, key_lock_source, backup_outcomes, auth_results,
  lock_sources,
}
use homekey_household.Models.Json.{Json, get}
use homekey_household.Models.Errors.{Result, ok, raise, ◌>>=◌, ◌>>◌, guard, unknown_value, missing}
use homekey_household.Models.Validators.{
  Clock, require_dict, validate_identity, require_str, optional_str, optional_int,
  normalise_timestamp,
}

pub record BackupRecord : Type 0 where
  pub status : Text
  pub timestamp : Option Text

pub record LastAuth : Type 0 where
  pub auth_type : Text
  pub result : Text
  pub timestamp : Option Text
  pub issuer : Option Text

pub record LockChange : Type 0 where
  pub current : ℤ
  pub source : Text
  pub target : Option ℤ
  pub timestamp : Option Text

-- `value is None: raise`
unfoldable pub required_int : Option ℤ → Text → Result ℤ
required_int none where' = raise (missing where')
required_int (some n) where' = ok n

-- `source not in set(LockSource)`, of an optional text: None is no source.
unfoldable pub known_source : Option Text → Result Text
known_source none = raise (unknown_value (codes "lock/last.source"))
known_source (some s) = do
  guard (member s lock_sources) (unknown_value (codes "lock/last.source"))
  ok s

module _ (clock : Clock) where
  unfoldable pub backup_from_dict : Json → Text → Text → Result BackupRecord
  unfolding get
  backup_from_dict payload household_id node_id = do
    d ← require_dict payload (codes "backup/last")
    validate_identity d household_id node_id (codes "backup/last")
    status ← require_str d key_status
    guard (member status backup_outcomes) (unknown_value (codes "backup/last.status"))
    timestamp ← normalise_timestamp clock (get d key_timestamp) (codes "backup/last.timestamp")
    ok (record { status = status; timestamp = timestamp })

  unfoldable pub auth_from_dict : Json → Text → Text → Result LastAuth
  unfolding get
  auth_from_dict payload household_id node_id = do
    d ← require_dict payload (codes "last_auth")
    validate_identity d household_id node_id (codes "last_auth")
    result ← require_str d key_auth_result
    guard (member result auth_results) (unknown_value (codes "last_auth.result"))
    auth_type ← optional_str d (codes "type")
    timestamp ← normalise_timestamp clock (get d key_timestamp) (codes "last_auth.timestamp")
    issuer ← optional_str d (codes "issuer")
    ok (record {
      auth_type = or_text auth_type (codes "HomeKey");
      result = result;
      timestamp = timestamp;
      issuer = issuer;
    })

  unfoldable pub change_from_dict : Json → Text → Text → Result LockChange
  unfolding get
  change_from_dict payload household_id node_id = do
    d ← require_dict payload (codes "lock/last")
    validate_identity d household_id node_id (codes "lock/last")
    reported ← optional_int d (codes "current")
    current ← required_int reported (codes "lock/last.current")
    named ← optional_str d key_lock_source
    source ← known_source named
    target ← optional_int d (codes "target")
    timestamp ← normalise_timestamp clock (get d key_timestamp) (codes "lock/last.timestamp")
    ok (record { current = current; source = source; target = target; timestamp = timestamp })
