-- ===== src/Backup/Settings.antt =====
-- backup.py: the settings of an entry, and which entries a backup can be taken for.
use homekey_household.Prelude.{
  Text, codes, truthy, text_eq, Dict, lookup, insert, Bool, not, ◌&&◌, Option, none, some, List, [],
  ◌∷◌, if◌then◌else◌,
}
use homekey_household.Models.Json.{Json, null, str}
use homekey_household.Models.Errors.{Result, ok, raise, unexpected}
use homekey_household.Models.Values.{truthy_json}
use homekey_household.Direct.Connect.{Client}

-- What carries an entry's events: a poller, with its client and the node that it last read, or MQTT.
pub data Transport : Type 0 where
  direct : Client → Option Text → Transport
  mqtt : Transport

pub record Entry : Type 0 where
  pub entry_data : Dict Json
  pub options : Dict Json

-- A value under `hass.data[DOMAIN]`: the store of the backups lies there too, which has no entry.
pub record Runtime : Type 0 where
  pub entry : Option Entry
  pub household_id : Text
  pub transport : Transport

-- `d.update(new)`
unfoldable pub update : Dict Json → Dict Json → Dict Json
update d [] = d
update d ((k, v) ∷ new) = update (insert k v d) new

-- `d.get(key)`
unfoldable pub get_or_null : Text → Dict Json → Json
get_or_null key d = elim (lookup key d) [ none ↦ null | some v ↦ v ]

-- `d[key]`, where a missing key is KeyError
unfoldable pub required : Text → Dict Json → Result Json
required key d = elim (lookup key d) [ none ↦ raise unexpected | some v ↦ ok v ]

unfoldable pub entry_settings : Option Entry → Dict Json
unfolding update
entry_settings none = []
entry_settings (some e) = update (update [] e.entry_data) e.options

-- `entry_backup_settings`
unfoldable pub entry_backup_settings : Runtime → Dict Json
unfolding entry_settings
entry_backup_settings r =
    insert (codes "household_id") (str r.household_id) (entry_settings r.entry)

-- `backup_client_for`
unfoldable pub backup_client_for : Dict Json → Bool
unfolding get_or_null truthy_json
backup_client_for d =
    truthy_json (get_or_null (codes "host") d)
    && truthy_json (get_or_null (codes "fingerprint") d)
    && truthy_json (get_or_null (codes "username") d)
    && truthy_json (get_or_null (codes "password") d)

-- `BACKUP_STORE_KEY`
abbrev pub backup_store_key : Text
backup_store_key = codes "backup_store"

-- Whether the loop takes the entry; `requested` is empty where the call names none.
unfoldable pub is_target : Text → Text → Runtime → Bool
unfolding backup_client_for entry_backup_settings
is_target requested entry_id r =
    not (text_eq entry_id backup_store_key)
    && not (truthy requested && not (text_eq entry_id requested))
    && backup_client_for (entry_backup_settings r)

-- `_target_entry_ids`
unfoldable pub target_entry_ids : Text → Dict Runtime → List Text
unfolding is_target
target_entry_ids requested [] = []
target_entry_ids requested ((entry_id, r) ∷ rest) =
    let others = target_entry_ids requested rest in
    if is_target requested entry_id r then entry_id ∷ others else others

-- `transport.client if isinstance(transport, DirectPoller) else None`
unfoldable pub running_client : Transport → Option Client
running_client (Transport.direct client node_id) = some client
running_client Transport.mqtt = none

-- `getattr(transport, "node_id", None)`
unfoldable pub node_of : Transport → Option Text
node_of (Transport.direct client node_id) = node_id
node_of Transport.mqtt = none
