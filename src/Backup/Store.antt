-- ===== src/Backup/Store.antt =====
-- backup.py, `BackupStore`. Home Assistant's `Store` is the JSON value of its file.
use homekey_household.Prelude.{
  ℕ, zero, suc, ◌-◌, ◌==◌, length, Text, codes, text_eq, Option, none, some, List, [], ◌∷◌, ◌++◌,
  if◌then◌else◌,
}
use homekey_household.Models.Json.{Json, arr, obj, Items, Fields, end, field, get}
use homekey_household.Models.Values.{Writer, object_or_none}
use homekey_household.Backup.Records.{StoredBackup, as_dict, from_dict}

-- `BACKUP_KEEP`
abbrev pub backup_keep : ℕ
backup_keep = 7

pub record BackupStore : Type 0 where
  pub keep : ℕ
  pub backups : List StoredBackup
  pub file : Json

unfoldable pub new_store : ℕ → Json → BackupStore
new_store keep file = record { keep = keep; backups = []; file = file }

-- The backups of one node, oldest first.
unfoldable pub for_node : Text → List StoredBackup → List StoredBackup
for_node node_id [] = []
for_node node_id (b ∷ bs) =
    let rest = for_node node_id bs in if text_eq b.node_id node_id then b ∷ rest else rest

-- `candidates[-1] if candidates else None`
unfoldable pub last : List StoredBackup → Option StoredBackup
last [] = none
last (b ∷ []) = some b
last (b ∷ c ∷ bs) = last (c ∷ bs)

-- `latest`
unfoldable pub latest : Option Text → BackupStore → Option StoredBackup
unfolding last for_node
latest none s = last s.backups
latest (some node_id) s = last (for_node node_id s.backups)

-- The backups without the first `n` of one node. The source tells them apart by their identity: each
-- is an object of its own, made by one fetch or one record of the file.
unfoldable pub drop_oldest : Text → ℕ → List StoredBackup → List StoredBackup
drop_oldest node_id zero bs = bs
drop_oldest node_id (suc n) [] = []
drop_oldest node_id (suc n) (b ∷ bs) =
    let fewer = drop_oldest node_id n bs in
    let same = drop_oldest node_id (suc n) bs in
    if text_eq b.node_id node_id then fewer else b ∷ same

-- `_prune`
unfoldable pub prune : ℕ → Text → List StoredBackup → List StoredBackup
unfolding for_node drop_oldest
prune keep node_id bs =
    let excess = length (for_node node_id bs) - keep in
    if excess == 0 then bs else drop_oldest node_id excess bs

unfoldable pub items_of : List StoredBackup → Items
unfolding as_dict
items_of [] = Items.nil
items_of (b ∷ bs) = Items.cons (as_dict b) (items_of bs)

-- What `async_add` saves.
unfoldable pub file_of : List StoredBackup → Json
unfolding items_of
file_of bs = obj (field (codes "backups") (arr (items_of bs)) end)

-- `async_add`
unfoldable pub add : StoredBackup → BackupStore → BackupStore
unfolding prune file_of
add b s =
    let kept = prune s.keep b.node_id (s.backups ++ (b ∷ [])) in
    record s { backups = kept; file = file_of kept }

-- The backups that are added, in turn.
unfoldable pub add_all : List StoredBackup → BackupStore → BackupStore
unfolding add
add_all [] s = s
add_all (b ∷ bs) s = add_all bs (add b s)

abbrev pub cons_if : Option StoredBackup → List StoredBackup → List StoredBackup
cons_if none bs = bs
cons_if (some b) bs = b ∷ bs

-- `raw.get("backups") if isinstance(raw, dict) else None`, when it is a list
unfoldable pub backups_in : Option Fields → Option Items
backups_in none = none
backups_in (some fs) = elim (get fs (codes "backups")) [ arr items ↦ some items | _ ↦ none ]

module _ (w : Writer) where
  -- The records that can be used; the others are passed over.
  unfoldable pub read_items : Items → List StoredBackup
  unfolding from_dict
  read_items Items.nil = []
  read_items (Items.cons v vs) = cons_if (from_dict w v) (read_items vs)

  unfoldable pub read_backups : Option Items → List StoredBackup
  unfolding read_items
  read_backups none = []
  read_backups (some items) = read_items items

  -- `async_load`
  unfoldable pub load : BackupStore → BackupStore
  unfolding object_or_none backups_in read_backups
  load s = record s { backups = read_backups (backups_in (object_or_none s.file)) }
