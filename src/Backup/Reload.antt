-- ===== src/Backup/Reload.antt =====
-- backup.py: what a restart reads back of the backups that were saved.
use homekey_household.Prelude.{
  Text, text_eq, truthy, Bool, ◌&&◌, none, some, List, [], ◌∷◌, ◌≡◌, refl, ap, if◌then◌else◌,
  Bool-cases, inl, inr,
}
use homekey_household.Models.Json.{str, get}
use homekey_household.Models.Values.{
  Writer, or_json, truthy_json, text_of, text_or_none, object_or_none, is_true_json,
}
use homekey_household.Backup.Records.{
  NodeTime, StoredBackup, time_json, time_of, as_dict, text_at, read_fields, from_dict,
}
use homekey_household.Backup.Store.{
  BackupStore, new_store, items_of, file_of, add, read_items, read_backups, backups_in, load,
}

-- A backup that names its node and is not empty.
abbrev pub is_usable : StoredBackup → Bool
is_usable b = truthy b.node_id && truthy b.blob

-- The backups that are usable, in their order.
abbrev pub usable : List StoredBackup → List StoredBackup
usable [] = []
usable (b ∷ bs) = if is_usable b then b ∷ usable bs else usable bs

module _ (w : Writer) where
  text_of-or_empty : (t : Text) → text_of w (or_json (str t) (str [])) ≡ t
  unfolding text_of or_json truthy_json
  text_of-or_empty [] = refl
  text_of-or_empty (c ∷ t) = refl

  time_of-time_json : (t : NodeTime) → time_of (time_json t) ≡ t
  unfolding time_of time_json
  time_of-time_json NodeTime.no_time = refl
  time_of-time_json (NodeTime.whole n) = refl
  time_of-time_json (NodeTime.flag b) = refl

  from_dict-as_dict :
      (b : StoredBackup) → from_dict w (as_dict b) ≡ (if is_usable b then some b else none)
  unfolding from_dict as_dict read_fields object_or_none text_or_none text_at is_true_json get
      text_eq
  from_dict-as_dict b = elim (Bool-cases (truthy b.node_id)) [
    | inr nameless ↦ elim (Bool-cases (truthy b.blob)) [
      | inr empty ↦ rw (nameless, empty) refl
      | inl full ↦ rw (nameless, full) refl
    ]
    | inl named ↦ elim (Bool-cases (truthy b.blob)) [
      | inr empty ↦ rw (named, empty) refl
      | inl full ↦
          rw
            (
              named,
              full,
              text_of-or_empty b.household_id,
              text_of-or_empty b.created,
              time_of-time_json b.node_time,
            )
            refl
    ]
  ]

  read_items-items_of : (bs : List StoredBackup) → read_items w (items_of bs) ≡ usable bs
  unfolding read_items items_of
  read_items-items_of [] = refl
  read_items-items_of (b ∷ bs) = elim (Bool-cases (is_usable b)) [
    | inl good ↦ rw (from_dict-as_dict b, good) (ap (◌∷◌ b) (read_items-items_of bs))
    | inr bad ↦ rw (from_dict-as_dict b, bad) (read_items-items_of bs)
  ]

  -- After any addition, a store that reads the file anew has, of the backups of the old one, exactly
  -- those that name a node and are not empty, each with all its fields and in the same order.
  pub load-add :
      (b : StoredBackup) (s : BackupStore)
      → load w (new_store s.keep (add b s).file)
        ≡ record (add b s) { backups = usable (add b s).backups }
  unfolding load new_store add file_of backups_in read_backups object_or_none get text_eq
  load-add b s =
      ap (λ bs. record (add b s) { backups = bs }) (read_items-items_of (add b s).backups)
