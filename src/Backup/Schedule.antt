-- ===== src/Backup/Schedule.antt =====
-- backup.py, `async_setup_backups`: the run of the schedule, and the service call that backs up.
use homekey_household.Prelude.{
  Text, Dict, Bool, true, false, Option, none, some, lookup, length, ◌≤◌, List, [], ◌∷◌, ◌++◌, ◌≡◌,
  refl, ap, ◌∙◌, ℤ, Bool-cases, inl, inr, subst, sym,
}
use homekey_household.Models.Json.{Json}
use homekey_household.Models.Errors.{Result, ok, raise, service_error}
use homekey_household.Models.Values.{Writer}
use homekey_household.Command.Encoding.{Bytes}
use homekey_household.Direct.Connect.{Traced}
use homekey_household.Backup.Records.{StoredBackup}
use homekey_household.Backup.Store.{BackupStore, for_node, add, add_all}
use homekey_household.Backup.Retention.{add_all_bounded}
use homekey_household.Backup.Settings.{
  Runtime, backup_client_for, entry_backup_settings, target_entry_ids,
}
use homekey_household.Backup.Service.{
  Answers, keep_backup, back_up_runtime, back_up_found, set_up, back_up_entry,
}

module _ (w : Writer) (sha256 : Bytes → Bytes) (to_int : Json → Result ℤ) where
  -- The loop's next turn, when this one raised nothing.
  abbrev pub and_then :
      Traced (Unit {0}) × BackupStore
      → (BackupStore → Traced (Unit {0}) × BackupStore)
      → Traced (Unit {0}) × BackupStore
  and_then ((sent, raise e), s) rest = ((sent, raise e), s)
  and_then ((sent, ok u), s) rest = let ((more, r), s') = rest s in ((sent ++ more, r), s')

  -- The loop over the entries; `answers` gives what each entry's node answers.
  unfoldable pub back_up_each :
      (Text → Answers)
      → Dict Runtime
      → Bool
      → Option Bool
      → List Text
      → BackupStore
      → Traced (Unit {0}) × BackupStore
  unfolding back_up_entry
  back_up_each answers runtimes explicit choice [] s = (([], ok tt), s)
  back_up_each answers runtimes explicit choice (entry_id ∷ rest) s =
      and_then
        (back_up_entry w sha256 to_int runtimes entry_id explicit choice (answers entry_id) s)
        (back_up_each answers runtimes explicit choice rest)

  -- `_back_up_now`; `requested` is empty where the call names no entry.
  unfoldable pub back_up_now :
      (Text → Answers)
      → Dict Runtime
      → Text
      → Option Bool
      → BackupStore
      → Traced (Unit {0}) × BackupStore
  unfolding back_up_each target_entry_ids
  back_up_now answers runtimes requested choice s = elim (target_entry_ids requested runtimes) [
    | [] ↦ (([], raise service_error), s)
    | entry_id ∷ rest ↦ back_up_each answers runtimes true choice (entry_id ∷ rest) s
  ]

  -- `_scheduled`
  unfoldable pub scheduled :
      (Text → Answers) → Dict Runtime → BackupStore → Traced (Unit {0}) × BackupStore
  unfolding back_up_each target_entry_ids
  scheduled answers runtimes s =
      back_up_each answers runtimes false none (target_entry_ids [] runtimes) s

  -- What a run leaves is the store with some backups added, in turn.
  abbrev pub Adds : BackupStore → Traced (Unit {0}) × BackupStore → Type 0
  Adds s (t, after) = (new : List StoredBackup) × (after ≡ add_all new s)

  keep_backup-Adds :
      (explicit : Bool) (t : Traced StoredBackup) (s : BackupStore)
      → Adds s (keep_backup explicit t s)
  unfolding keep_backup add_all
  keep_backup-Adds explicit (sent, ok b) s = (b ∷ [], refl)
  keep_backup-Adds explicit (sent, raise e) s = ([], refl)

  back_up_found-Adds :
      (explicit : Bool) (choice : Option Bool) (a : Answers) (o : Option Runtime) (s : BackupStore)
      → Adds s (back_up_found w sha256 to_int explicit choice a o s)
  unfolding back_up_found back_up_runtime add_all
  back_up_found-Adds explicit choice a none s = ([], refl)
  back_up_found-Adds explicit choice a (some r) s =
      elim (Bool-cases (backup_client_for (entry_backup_settings r))) [
        | inl configured ↦ rw (configured, back_up_runtime) (keep_backup-Adds explicit _ s)
        | inr no_access ↦ rw (no_access, back_up_runtime) ([], refl)
      ]

  add_all-append :
      (new more : List StoredBackup) (s : BackupStore)
      → add_all more (add_all new s) ≡ add_all (new ++ more) s
  unfolding add_all
  add_all-append [] more s = refl
  add_all-append (b ∷ new) more s = add_all-append new more (add b s)

  and_then-Adds :
      (t : Traced (Unit {0}) × BackupStore) (rest : BackupStore → Traced (Unit {0}) × BackupStore)
      (s : BackupStore)
      → Adds s t
      → ((s' : BackupStore) → Adds s' (rest s'))
      → Adds s (and_then t rest)
  and_then-Adds ((sent, raise e), s') rest s h k = h
  and_then-Adds ((sent, ok u), s') rest s (new, h) k =
      let (more, e) = k s' in (new ++ more, e ∙ ap (add_all more) h ∙ add_all-append new more s)

  back_up_each-Adds :
      (answers : Text → Answers) (runtimes : Dict Runtime) (explicit : Bool) (choice : Option Bool)
      (ids : List Text) (s : BackupStore)
      → Adds s (back_up_each answers runtimes explicit choice ids s)
  unfolding back_up_each back_up_entry add_all
  back_up_each-Adds answers runtimes explicit choice [] s = ([], refl)
  back_up_each-Adds answers runtimes explicit choice (entry_id ∷ rest) s =
      and_then-Adds _ _ s
        (back_up_found-Adds explicit choice (answers entry_id) (set_up (lookup entry_id runtimes))
          s)
        (back_up_each-Adds answers runtimes explicit choice rest)

  -- Whatever the nodes answer, a run of the schedule over a store that holds no more than `keep`
  -- backups of any node leaves such a store.
  pub scheduled_bounded :
      (answers : Text → Answers) (runtimes : Dict Runtime) (s : BackupStore)
      → ((k : Text) → length (for_node k s.backups) ≤ s.keep)
      → (k : Text) → length (for_node k (scheduled answers runtimes s).1.backups) ≤ s.keep
  unfolding scheduled
  scheduled_bounded answers runtimes s h k =
      let (new, e) =
        back_up_each-Adds answers runtimes false none (target_entry_ids [] runtimes) s in
      subst (λ s'. length (for_node k s'.backups) ≤ s.keep) (sym e) (add_all_bounded new s h k)
