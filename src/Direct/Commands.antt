-- ===== src/Direct/Commands.antt =====
-- direct.py, `DirectClient`: the requests that change the node or carry its backup. Each gives the
-- requests that it sent and how it ended; `Exchange` is how the request ends, when it is sent.
use homekey_household.Prelude.{
  Text, codes, truthy, text_eq, ◌||◌, Bool, true, false, Option, none, some, [], ◌∷◌, ℤ,
  if◌then◌else◌,
}
use homekey_household.Const.Topics.{action_lock, action_unlock}
use homekey_household.Models.Json.{Json, bool, int, str, obj, Fields, end, field, get}
use homekey_household.Models.Errors.{Result, ok, raise, ◌>>=◌, protocol_error}
use homekey_household.Models.Values.{mapping, is_true_json, text_or_none}
use homekey_household.Direct.Client.{Exchange, request}
use homekey_household.Direct.Connect.{Client, Call, Traced}

-- One request of a client.
unfoldable pub sends : Client → Call → Exchange → Traced Json
unfolding request
sends client call e = (record { client = client; call = call } ∷ [], request e)

-- A refusal before anything is sent.
abbrev pub refuses {ℓ} : {A : Type ℓ} → Traced A
refuses = ([], raise protocol_error)

-- A field of a body that is only there when its value is.
abbrev pub field_if : Text → Option Json → Fields → Fields
field_if key none fs = fs
field_if key (some v) fs = field key v fs

-- `async_lock`
unfoldable pub lock : Client → Text → Exchange → Traced Json
unfolding sends
lock client action e =
    if text_eq action action_lock || text_eq action action_unlock
    then sends client
        (Call.post_call (codes "/api/ha/lock")
          (some (obj (field (codes "action") (str action) end))))
        e
    else refuses

-- What the answer of `/backup/create` holds: the blob, and whether it carries the credentials.
unfoldable pub backup_in : Fields → Result (Text × Bool)
unfolding text_or_none is_true_json
backup_in fs = elim (text_or_none (get fs (codes "backup"))) [
  | none ↦ raise protocol_error
  | some blob ↦ ok (blob, is_true_json (get fs (codes "includes_credentials")))
]

unfoldable pub read_backup : Result Json → Result (Text × Bool)
unfolding mapping backup_in
read_backup answer = do value ← answer; fs ← mapping value; backup_in fs

unfoldable pub backup_body : Bool → Option Json
backup_body false = none
backup_body true = some (obj (field (codes "include_credentials") (bool true) end))

-- `async_create_backup`
unfoldable pub create_backup : Client → Bool → Exchange → Traced (Text × Bool)
unfolding sends backup_body read_backup
create_backup client include_credentials e =
    let (sent, r) =
      sends client (Call.post_call (codes "/backup/create") (backup_body include_credentials)) e in
    (sent, read_backup r)

unfoldable pub restore_call : Text → Text → Call
restore_call recovery_secret backup = Call.post_call (codes "/backup/restore") (
    some (
      obj (field (codes "secret") (str recovery_secret) (field (codes "backup") (str backup) end))))

-- `async_restore_backup`
unfoldable pub restore_backup : Client → Text → Text → Exchange → Traced Json
unfolding sends restore_call
restore_backup client recovery_secret backup e =
    sends client (restore_call recovery_secret backup) e

-- `async_get_backup_info`
unfoldable pub get_backup_info : Client → Exchange → Traced Json
unfolding sends
get_backup_info client e = sends client (Call.get_call (codes "/backup")) e

abbrev pub json_bool : Option Bool → Option Json
json_bool none = none
json_bool (some b) = some (bool b)

abbrev pub json_int : Option ℤ → Option Json
json_int none = none
json_int (some n) = some (int n)

-- `if label`
abbrev pub json_label : Option Text → Option Json
json_label none = none
json_label (some t) = if truthy t then some (str t) else none

unfoldable pub guest_config_body : Option Bool → Option ℤ → Fields
guest_config_body enabled seconds =
    field_if (codes "enabled") (json_bool enabled)
      (field_if (codes "default_validity_seconds") (json_int seconds) end)

-- `async_set_guest_config`
unfoldable pub set_guest_config : Client → Option Bool → Option ℤ → Exchange → Traced Json
unfolding sends guest_config_body
set_guest_config client enabled seconds e = elim (guest_config_body enabled seconds) [
  | Fields.end ↦ refuses
  | Fields.field k v fs ↦
      sends client (Call.post_call (codes "/api/ha/guest/config") (some (obj (field k v fs)))) e
]

-- What a card is taught with.
pub record Lesson : Type 0 where
  pub label : Option Text
  pub valid_days : Option Json
  pub valid_from : Option ℤ
  pub valid_until : Option ℤ

unfoldable pub teach_body : Lesson → Fields
teach_body l = field_if (codes "label") (json_label l.label) (
    field_if (codes "valid_days") l.valid_days (
      field_if (codes "valid_from") (json_int l.valid_from)
        (field_if (codes "valid_until") (json_int l.valid_until) end)))

-- `async_guest_teach`
unfoldable pub guest_teach : Client → Lesson → Exchange → Traced Json
unfolding sends teach_body
guest_teach client l e =
    sends client (Call.post_call (codes "/api/ha/guest/teach") (some (obj (teach_body l)))) e

-- `async_guest_revoke`
unfoldable pub guest_revoke : Client → Text → Exchange → Traced Json
unfolding sends
guest_revoke client tag_id e =
    if truthy tag_id
    then sends client
        (Call.post_call (codes "/api/ha/guest/revoke")
          (some (obj (field (codes "tag_id") (str tag_id) end))))
        e
    else refuses

-- `async_guest_cancel`
unfoldable pub guest_cancel : Client → Exchange → Traced Json
unfolding sends
guest_cancel client e =
    sends client (Call.post_call (codes "/api/ha/guest/cancel") (some (obj end))) e
