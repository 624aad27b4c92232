-- ===== src/Tests/Backup.antt =====
-- The backups of two nodes at concrete histories, and one entry that is backed up and restored.
use homekey_household.Prelude.{
  Text, codes, length, ◌≤◌, true, Dict, none, some, List, [], ◌∷◌, ◌≡◌, ◌⊎◌, arith, pos,
}
use homekey_household.Models.Json.{Json, null, str, obj, end, field}
use homekey_household.Models.Errors.{ok}
use homekey_household.Direct.Client.{Exchange}
use homekey_household.Backup.Records.{NodeTime, StoredBackup}
use homekey_household.Backup.Store.{BackupStore, new_store, for_node, add, add_all, load}
use homekey_household.Backup.Retention.{window, for_node-add_all}
use homekey_household.Backup.Reload.{usable, load-add}
use homekey_household.Backup.Settings.{Transport, Runtime}
use homekey_household.Backup.Service.{Answers, back_up_entry}
use homekey_household.Backup.Restore.{restore_entry}
use homekey_household.Backup.Outcome.{Fetched, Ends, back_up_entry-Ends}
use homekey_household.Backup.Secrecy.{IsRefused, IsAllowed, restore_entry_cases}
use homekey_household.Backup.Schedule.{scheduled, scheduled_bounded}
use homekey_household.Tests.Data.{home, gate, garage, writer}
use homekey_household.Tests.Trust.{whole_digest, peer}

abbrev copy_of : Text → Text → StoredBackup
copy_of node_id blob = record {
  node_id = node_id;
  household_id = home;
  created = codes "noon";
  node_time = NodeTime.no_time;
  blob = blob;
  includes_credentials = true;
}

abbrev history : List StoredBackup
history =
    copy_of gate (codes "01")
    ∷ copy_of garage (codes "02")
    ∷ copy_of gate (codes "03")
    ∷ copy_of gate (codes "04")
    ∷ []

abbrev empty : BackupStore
empty = new_store 2 null

for_node-add_all_example :
    for_node gate (add_all history empty).backups ≡ window 2 [] (for_node gate history)
unfolding for_node new_store
for_node-add_all_example = for_node-add_all gate history empty

load-add_example :
    load writer (new_store 2 (add (copy_of gate (codes "05")) empty).file)
    ≡ record (add (copy_of gate (codes "05")) empty) {
      backups = usable (add (copy_of gate (codes "05")) empty).backups;
    }
unfolding new_store
load-add_example = load-add writer (copy_of gate (codes "05")) empty

abbrev settings : Dict Json
settings =
    (codes "host", str (codes "10.0.0.2"))
    ∷ (codes "fingerprint", str (codes "ab:09"))
    ∷ (codes "username", str (codes "admin"))
    ∷ (codes "password", str (codes "secret"))
    ∷ []

abbrev runtimes : Dict Runtime
runtimes =
    (
      codes "entry",
      record {
        entry = some (record { entry_data = settings; options = [] });
        household_id = home;
        transport = Transport.mqtt;
      },
    )
    ∷ []

abbrev answers : Answers
answers = record {
  peer = peer;
  create = Exchange.response 200 (ok (obj (field (codes "backup") (str (codes "05")) end)));
  summary = Exchange.timed_out;
  restore = Exchange.response 200 (ok (obj end));
  info = Exchange.timed_out;
  created = codes "noon";
}

back_up_entry-Ends_example :
    Ends writer whole_digest
      (λ j. ok (pos 443))
      answers
      (Fetched writer whole_digest (λ j. ok (pos 443)) answers runtimes (codes "entry") none)
      empty
      (back_up_entry writer whole_digest
        (λ j. ok (pos 443))
        runtimes
        (codes "entry")
        true
        none
        answers
        empty)
back_up_entry-Ends_example =
    back_up_entry-Ends writer whole_digest (λ j. ok (pos 443)) answers runtimes (codes "entry") none
      empty

restore_entry_cases_example :
    let t =
      restore_entry writer whole_digest
        (λ j. ok (pos 443))
        runtimes
        (codes "entry")
        (codes "secret")
        (codes "05")
        answers
        empty in
    IsRefused writer whole_digest (λ j. ok (pos 443)) answers t
    ⊎ IsAllowed writer whole_digest
        (λ j. ok (pos 443))
        answers
        runtimes
        (codes "entry")
        (codes "secret")
        t.0
restore_entry_cases_example =
    restore_entry_cases writer whole_digest (λ j. ok (pos 443)) answers runtimes (codes "entry")
      (codes "secret") (codes "05") empty

scheduled_bounded_example :
    length (
      for_node gate
        (scheduled writer whole_digest (λ j. ok (pos 443)) (λ k. answers) runtimes empty).1.backups)
    ≤ 2
unfolding new_store for_node
scheduled_bounded_example =
    scheduled_bounded writer whole_digest (λ j. ok (pos 443)) (λ k. answers) runtimes empty
      (λ k. omega arith) gate
