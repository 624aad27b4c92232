-- ===== src/Backup/Restore.antt =====
-- backup.py: `async_restore_entry`.
use homekey_household.Prelude.{
  Text, codes, truthy, text_eq, Dict, lookup, not, ◌||◌, Option, none, some, List, [], ◌∷◌, ℤ,
  if◌then◌else◌,
}
use homekey_household.Models.Json.{Json, str}
use homekey_household.Models.Errors.{Result, ok, raise, ◌>>=◌, service_error}
use homekey_household.Models.Values.{Writer, mapping, or_json, text_of, truthy_json}
use homekey_household.Command.Encoding.{Bytes}
use homekey_household.Direct.Connect.{Client, Call, Traced, after}
use homekey_household.Direct.Commands.{sends, restore_backup}
use homekey_household.Backup.Records.{StoredBackup}
use homekey_household.Backup.Store.{BackupStore, last}
use homekey_household.Backup.Settings.{
  Runtime, get_or_null, entry_backup_settings, backup_client_for, running_client,
}
use homekey_household.Backup.Service.{Answers, is_transport_error, client_for, set_up}

-- `async_get_info`
abbrev pub info_call : Call
info_call = Call.get_call (codes "/api/ha/info")

unfoldable pub get_info : Client → Answers → Traced Json
unfolding sends
get_info client a = sends client info_call a.info

-- The stored copies of a household, or all of them where the entry names none.
unfoldable pub of_household : Text → List StoredBackup → List StoredBackup
of_household household_id [] = []
of_household household_id (b ∷ bs) =
    let rest = of_household household_id bs in
    if not (truthy household_id) || text_eq b.household_id household_id then b ∷ rest else rest

abbrev pub newest_blob : Option StoredBackup → Result Text
newest_blob none = raise service_error
newest_blob (some b) = ok b.blob

-- The backup to restore: the one that was handed over, or the newest stored copy.
unfoldable pub chosen_blob : Text → Text → BackupStore → Result Text
unfolding of_household last
chosen_blob handed household_id s =
    if truthy handed then ok handed else newest_blob (last (of_household household_id s.backups))

-- A failure of the transport is a message to the user.
abbrev pub user_error {ℓ} : {A : Type ℓ} → Result A → Result A
user_error (ok a) = ok a
user_error (raise e) = if is_transport_error e then raise service_error else raise e

-- What is logged of the node after the restore: only the failure of the transport is swallowed.
unfoldable pub read_back : Result Json → Result (Unit {0})
unfolding is_transport_error mapping
read_back (raise e) = if is_transport_error e then ok tt else raise e
read_back (ok answer) = do fs ← mapping answer; ok tt

module _ (w : Writer) (sha256 : Bytes → Bytes) (to_int : Json → Result ℤ) where
  -- `_async_restore_on_node`
  unfoldable pub restore_on_node : Dict Json → Text → Text → Option Client → Answers → Traced Client
  unfolding client_for restore_backup
  restore_on_node settings recovery_secret blob running a =
      after (client_for w sha256 to_int settings none running a.peer) (λ (client, node_id).
        after (restore_backup client recovery_secret blob a.restore) (λ answer. ([], ok client)))

  -- The requests of a restore whose backup is chosen.
  unfoldable pub restore_blob :
      Dict Json → Text → Option Client → Answers → Result Text → Traced (Unit {0})
  unfolding restore_on_node get_info read_back
  restore_blob settings recovery_secret running a (raise e) = ([], raise e)
  restore_blob settings recovery_secret running a (ok blob) =
      let (sent, r) = restore_on_node settings recovery_secret blob running a in
      after (sent, user_error r)
        (λ client. let (more, answer) = get_info client a in (more, read_back answer))

  -- `str(entry_data.get("household_id") or "")`
  unfoldable pub household_of : Dict Json → Text
  unfolding get_or_null or_json truthy_json text_of
  household_of settings = text_of w (or_json (get_or_null (codes "household_id") settings) (str []))

  unfoldable pub restore_runtime :
      Text → Text → Answers → BackupStore → Option Runtime → Traced (Unit {0})
  unfolding restore_blob chosen_blob entry_backup_settings backup_client_for running_client
      household_of
  restore_runtime recovery_secret handed a s none = ([], raise service_error)
  restore_runtime recovery_secret handed a s (some r) =
      let settings = entry_backup_settings r in
      if backup_client_for settings
      then restore_blob settings recovery_secret (running_client r.transport) a
          (chosen_blob handed (household_of settings) s)
      else ([], raise service_error)

  -- `async_restore_entry`; `handed` is empty where no backup is handed over.
  unfoldable pub restore_entry :
      Dict Runtime → Text → Text → Text → Answers → BackupStore → Traced (Unit {0})
  unfolding restore_runtime set_up
  restore_entry runtimes entry_id recovery_secret handed a s =
      if truthy recovery_secret
      then restore_runtime recovery_secret handed a s (set_up (lookup entry_id runtimes))
      else ([], raise service_error)
