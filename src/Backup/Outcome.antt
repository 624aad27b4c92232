-- ===== src/Backup/Outcome.antt =====
-- backup.py: what a run of a backup says, and what it keeps.
use homekey_household.Prelude.{
  Text, Dict, lookup, Bool, true, Option, none, some, ◌≡◌, ◌⊎◌, refl, ℤ, Bool-cases, Option-cases,
  inl, inr, arith,
}
use homekey_household.Models.Json.{Json}
use homekey_household.Models.Errors.{Error, Result, ok, raise, service_error}
use homekey_household.Models.Values.{Writer}
use homekey_household.Command.Encoding.{Bytes}
use homekey_household.Direct.Connect.{Traced}
use homekey_household.Backup.Records.{StoredBackup}
use homekey_household.Backup.Store.{BackupStore, add}
use homekey_household.Backup.Settings.{
  Runtime, entry_backup_settings, backup_client_for, running_client, node_of,
}
use homekey_household.Backup.Service.{
  Answers, is_transport_error, fetch_backup, keep_backup, set_up, back_up_runtime, back_up_found,
  back_up_entry, flag_of, remembered_choice,
}

pub set_up-some : (o : Option Runtime) (r : Runtime) → set_up o ≡ some r → o ≡ some r
unfolding set_up
set_up-some none r h = h
set_up-some (some q) r h = elim (Option-cases q.entry) [
  | inl absent ↦ absurd (ground arith)
  | inr (e, there) ↦ ground arith
]

module _ (w : Writer) (sha256 : Bytes → Bytes) (to_int : Json → Result ℤ) (a : Answers) where
  -- The backup that a run fetched for an entry that is set up.
  pub record Fetched (runtimes : Dict Runtime) (entry_id : Text) (include_credentials : Option Bool)
      (b : StoredBackup) : Type 0 where
    pub runtime : Runtime
    pub found : lookup entry_id runtimes ≡ some runtime
    pub configured : backup_client_for (entry_backup_settings runtime) ≡ true
    pub fetched :
        (fetch_backup w sha256 to_int
          (entry_backup_settings runtime)
          (node_of runtime.transport)
          (running_client runtime.transport)
          (flag_of include_credentials (remembered_choice (entry_backup_settings runtime)))
          a).1
        ≡ ok b

  -- How a run that somebody asked for ends.
  abbrev pub Ends : (StoredBackup → Type 0) → BackupStore → Traced (Unit {0}) × BackupStore → Type 0
  Ends P s out =
      ((b : StoredBackup) × P b × (out.0.1 ≡ ok tt) × (out.1 ≡ add b s))
      ⊎ ((e : Error) × (out.0.1 ≡ raise e) × (out.1 ≡ s))

  keep_backup-Ends :
      (t : Traced StoredBackup) (s : BackupStore) (P : StoredBackup → Type 0)
      → ((b : StoredBackup) → t.1 ≡ ok b → P b)
      → Ends P s (keep_backup true t s)
  unfolding keep_backup
  keep_backup-Ends (sent, ok b) s P h = inl (b, h b refl, refl, refl)
  keep_backup-Ends (sent, raise e) s P h = elim (Bool-cases (is_transport_error e)) [
    | inl transport ↦ inr (service_error, rw transport refl, refl)
    | inr other ↦ inr (e, rw other refl, refl)
  ]

  back_up_runtime-Ends :
      (include_credentials : Option Bool) (r : Runtime) (s : BackupStore)
      (P : StoredBackup → Type 0)
      → (backup_client_for (entry_backup_settings r) ≡ true
          → (b : StoredBackup)
          → (fetch_backup w sha256 to_int
              (entry_backup_settings r)
              (node_of r.transport)
              (running_client r.transport)
              (flag_of include_credentials (remembered_choice (entry_backup_settings r)))
              a).1
            ≡ ok b
          → P b)
      → Ends P s (back_up_runtime w sha256 to_int true include_credentials a r s)
  unfolding back_up_runtime
  back_up_runtime-Ends include_credentials r s P h =
      elim (Bool-cases (backup_client_for (entry_backup_settings r))) [
        | inl configured ↦ rw (configured, back_up_runtime) (keep_backup-Ends _ s P (h configured))
        | inr no_access ↦ rw (no_access, back_up_runtime) (inr (service_error, refl, refl))
      ]

  back_up_found-Ends :
      (include_credentials : Option Bool) (o : Option Runtime) (s : BackupStore)
      (P : StoredBackup → Type 0)
      → ((r : Runtime)
          → o ≡ some r
          → Ends P s (back_up_runtime w sha256 to_int true include_credentials a r s))
      → Ends P s (back_up_found w sha256 to_int true include_credentials a o s)
  unfolding back_up_found
  back_up_found-Ends include_credentials none s P h = inr (service_error, refl, refl)
  back_up_found-Ends include_credentials (some r) s P h = h r refl

  -- A run that somebody asked for returns only when it fetched a backup of that entry, and then that
  -- backup is added to the store; where it raises, the store is as it was.
  pub back_up_entry-Ends :
      (runtimes : Dict Runtime) (entry_id : Text) (include_credentials : Option Bool)
      (s : BackupStore)
      → Ends
          (Fetched runtimes entry_id include_credentials)
          s
          (back_up_entry w sha256 to_int runtimes entry_id true include_credentials a s)
  unfolding back_up_entry
  back_up_entry-Ends runtimes entry_id include_credentials s =
      back_up_found-Ends include_credentials (set_up (lookup entry_id runtimes)) s _ (λ r there.
        back_up_runtime-Ends include_credentials r s _ (λ configured b fetched. record {
          runtime = r;
          found = set_up-some _ r there;
          configured = configured;
          fetched = fetched;
        }))
