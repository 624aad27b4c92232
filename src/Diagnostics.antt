-- ===== src/Diagnostics.antt =====
-- custom_components/homekey_household/diagnostics.py: what is put into a bug report.
use homekey_household.Prelude.{
  ℕ, ◌/◌, length, Text, codes, truthy, text_eq, member, lower, lower_code, Bool, true, false, not,
  ◌||◌, Option, none, some, List, [], ◌∷◌, pos, if◌then◌else◌,
}
use homekey_household.Models.Json.{
  Json, null, bool, int, float, str, arr, obj, Items, Fields, end, field,
}
use homekey_household.Backup.Records.{StoredBackup, time_json}
use homekey_household.Backup.Store.{BackupStore}
pub mod Secrecy

-- `_REDACT_KEYS`
abbrev pub redact_keys : List Text
redact_keys =
    codes "password"
    ∷ codes "passwd"
    ∷ codes "mqtt_password"
    ∷ codes "web_password"
    ∷ codes "access_point_password"
    ∷ codes "private_key"
    ∷ codes "client_key"
    ∷ codes "recovery_key"
    ∷ codes "recovery_secret"
    ∷ codes "recovery_metadata"
    ∷ codes "command_key"
    ∷ codes "key"
    ∷ codes "mac"
    ∷ codes "token"
    ∷ codes "provisioning_token"
    ∷ codes "session_token"
    ∷ codes "backup"
    ∷ codes "data"
    ∷ []

abbrev pub redacted : Json
redacted = str (codes "[redacted]")

-- `key.lower() in _REDACT_KEYS`
unfoldable pub is_secret : Text → Bool
unfolding member lower
is_secret key = member (lower key) redact_keys

-- `_redact`, of a value whose keys are texts. A list's elements stand under the list's own key.
unfoldable mutual
  pub redact : Json → Text → Json
  redact (arr vs) key =
      let items = redact_items vs key in if is_secret key then redacted else arr items
  redact (obj fs) key =
      let fields = redact_fields fs in if is_secret key then redacted else obj fields
  redact null key = if is_secret key then redacted else null
  redact (bool b) key = if is_secret key then redacted else bool b
  redact (int n) key = if is_secret key then redacted else int n
  redact (float x) key = if is_secret key then redacted else float x
  redact (str s) key = if is_secret key then redacted else str s

  pub redact_items : Items → Text → Items
  redact_items Items.nil key = Items.nil
  redact_items (Items.cons v vs) key = Items.cons (redact v key) (redact_items vs key)

  pub redact_fields : Fields → Fields
  redact_fields Fields.end = Fields.end
  redact_fields (Fields.field k v fs) = Fields.field k (redact v k) (redact_fields fs)

-- What the summary says of one copy.
unfoldable pub copy_of : StoredBackup → Json
unfolding time_json
copy_of b = obj (
    field (codes "node_id") (str b.node_id) (
      field (codes "household_id") (str b.household_id) (
        field (codes "created") (str b.created) (
          field (codes "includes_credentials") (bool b.includes_credentials) (
            field (codes "hex_bytes") (int (pos (length b.blob / 2)))
              (field (codes "node_time") (time_json b.node_time) end))))))

-- `not household_id or entry.household_id == household_id`
unfoldable pub copies_of : Text → List StoredBackup → List StoredBackup
copies_of household_id [] = []
copies_of household_id (b ∷ bs) =
    let rest = copies_of household_id bs in
    if not (truthy household_id) || text_eq b.household_id household_id then b ∷ rest else rest

unfoldable pub copy_items : List StoredBackup → Items
unfolding copy_of
copy_items [] = Items.nil
copy_items (b ∷ bs) = Items.cons (copy_of b) (copy_items bs)

-- `copies[-1]["created"] if copies else None`
unfoldable pub newest_created : List StoredBackup → Json
newest_created [] = null
newest_created (b ∷ []) = str b.created
newest_created (b ∷ c ∷ bs) = newest_created (c ∷ bs)

-- `any(c["includes_credentials"] for c in copies)`
unfoldable pub any_sealed : List StoredBackup → Bool
any_sealed [] = false
any_sealed (b ∷ bs) = b.includes_credentials || any_sealed bs

-- `_backup_store_summary`; `none` is a store that is not set up.
unfoldable pub store_summary : Option BackupStore → Text → Json
unfolding copies_of copy_items newest_created any_sealed
store_summary none household_id = obj (field (codes "available") (bool false) end)
store_summary (some s) household_id =
    let copies = copies_of household_id s.backups in
    obj (
      field (codes "available") (bool true) (
        field (codes "count") (int (pos (length copies))) (
          field (codes "newest_created") (newest_created copies) (
            field (codes "any_includes_credentials") (bool (any_sealed copies))
              (field (codes "copies") (arr (copy_items copies)) end)))))
