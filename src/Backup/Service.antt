-- ===== src/Backup/Service.antt =====
-- backup.py: fetching one backup, backing an entry up, and restoring a node.
use homekey_household.Prelude.{
  Text, codes, or_text, Dict, lookup, Bool, true, false, Option, none, some, [], ℤ, pos, ltb_ℤ,
  if◌then◌else◌,
}
use homekey_household.Models.Json.{Json, bool, int, str, get}
use homekey_household.Models.Errors.{
  Error, Result, ok, raise, ◌>>=◌, auth_failed, tls_unavailable, protocol_error, no_household,
  fingerprint_mismatch, transport_failed, service_error,
}
use homekey_household.Models.Values.{Writer, mapping, or_json, text_of, truthy_json}
use homekey_household.Command.Encoding.{Bytes}
use homekey_household.Direct.Client.{Exchange}
use homekey_household.Direct.Connect.{Client, Traced, after, Peer, Probe, connect_node}
use homekey_household.Direct.Commands.{create_backup, get_backup_info}
use homekey_household.Backup.Records.{NodeTime, StoredBackup}
use homekey_household.Backup.Store.{BackupStore, add}
use homekey_household.Backup.Settings.{
  Runtime, get_or_null, required, entry_backup_settings, backup_client_for, running_client, node_of,
}

-- Where a node answers, the fingerprint to pin, and what it is asked with.
pub record Address : Type 0 where
  pub host : Text
  pub port : ℤ
  pub fingerprint : Text
  pub username : Text
  pub password : Text

-- How the exchanges with a node end, and the time that a record is stamped with.
pub record Answers : Type 0 where
  pub peer : Peer
  pub create : Exchange
  pub summary : Exchange
  pub restore : Exchange
  pub info : Exchange
  pub created : Text

-- `DirectTransportError` and its subclasses
unfoldable pub is_transport_error : Error → Bool
is_transport_error auth_failed = true
is_transport_error tls_unavailable = true
is_transport_error protocol_error = true
is_transport_error no_household = true
is_transport_error fingerprint_mismatch = true
is_transport_error transport_failed = true
is_transport_error _ = false

-- `value if isinstance(value, int) and value > 0 else None`
unfoldable pub positive_time : Json → NodeTime
positive_time (int n) = if ltb_ℤ (pos 0) n then NodeTime.whole n else NodeTime.no_time
positive_time (bool true) = NodeTime.flag true
positive_time _ = NodeTime.no_time

-- `_async_node_backup_time`
unfoldable pub node_backup_time : Result Json → Result NodeTime
unfolding is_transport_error mapping positive_time
node_backup_time (raise e) = if is_transport_error e then ok NodeTime.no_time else raise e
node_backup_time (ok answer) = do
  fs ← mapping answer
  ok (positive_time (get fs (codes "last_backup_time")))

abbrev pub flag_of : Option Bool → Bool → Bool
flag_of none d = d
flag_of (some b) d = b

-- `DEFAULT_BACKUP_INCLUDE_CREDENTIALS` where the settings do not say
unfoldable pub remembered_choice : Dict Json → Bool
unfolding truthy_json
remembered_choice d = elim (lookup (codes "backup_include_credentials") d) [
  | none ↦ false
  | some v ↦ truthy_json v
]

-- The entry that is set up, when it is.
unfoldable pub set_up : Option Runtime → Option Runtime
set_up none = none
set_up (some r) = elim r.entry [ none ↦ none | some e ↦ some r ]

-- What a run that somebody asked for says, and a scheduled one does not.
abbrev pub complaint : Bool → Result (Unit {0})
complaint explicit = if explicit then raise service_error else ok tt

-- The end of `async_back_up_entry`: only a backup that was fetched is added.
unfoldable pub keep_backup :
    Bool → Traced StoredBackup → BackupStore → Traced (Unit {0}) × BackupStore
unfolding is_transport_error add
keep_backup explicit (sent, ok b) s = ((sent, ok tt), add b s)
keep_backup explicit (sent, raise e) s =
    ((sent, if is_transport_error e then complaint explicit else raise e), s)

-- `str(…)`, `hashlib.sha256(…).digest()` and `int(…)` of a value.
module _ (w : Writer) (sha256 : Bytes → Bytes) (to_int : Json → Result ℤ) where
  -- `int(entry_data.get("port", 443))`
  unfoldable pub port_of : Dict Json → Result ℤ
  port_of settings = elim (lookup (codes "port") settings) [
    | none ↦ ok (pos 443)
    | some v ↦ to_int v
  ]

  -- The address that the settings hold: its keys are there, or KeyError is raised.
  unfoldable pub address_of : Dict Json → Result Address
  unfolding required text_of port_of
  address_of settings = do
    host ← required (codes "host") settings
    port ← port_of settings
    fingerprint ← required (codes "fingerprint") settings
    username ← required (codes "username") settings
    password ← required (codes "password") settings
    ok (record {
      host = text_of w host;
      port = port;
      fingerprint = text_of w fingerprint;
      username = text_of w username;
      password = text_of w password;
    })

  unfoldable pub dial : Address → Peer → Traced Probe
  unfolding connect_node
  dial d peer = connect_node w sha256 d.host d.port d.fingerprint d.username d.password peer

  -- The connection that is made where no client runs.
  unfoldable pub connect : Dict Json → Peer → Traced Probe
  unfolding address_of dial
  connect settings peer = after ([], address_of settings) (λ address. dial address peer)

  -- The client to use, and the node that it talks to.
  unfoldable pub client_for :
      Dict Json → Option Text → Option Client → Peer → Traced (Client × Option Text)
  unfolding connect
  client_for settings node_id (some client) peer = ([], ok (client, node_id))
  client_for settings node_id none peer =
      after (connect settings peer) (λ probe. ([], ok (probe.client, some probe.node_id)))

  -- The backup as it is kept.
  unfoldable pub stored_of : Dict Json → Option Text → Text → NodeTime → Text × Bool → StoredBackup
  unfolding text_of or_json truthy_json get_or_null
  stored_of settings node_id created node_time (blob, sealed) = record {
    node_id = or_text node_id [];
    household_id = text_of w (or_json (get_or_null (codes "household_id") settings) (str []));
    created = created;
    node_time = node_time;
    blob = blob;
    includes_credentials = sealed;
  }

  -- `async_fetch_backup`
  unfoldable pub fetch_backup :
      Dict Json → Option Text → Option Client → Bool → Answers → Traced StoredBackup
  unfolding client_for create_backup get_backup_info node_backup_time stored_of
  fetch_backup settings node_id running include_credentials a =
      after (client_for settings node_id running a.peer) (λ (client, node).
        after (create_backup client include_credentials a.create) (λ made.
          let (sent, answer) = get_backup_info client a.summary in
          after (sent, node_backup_time answer)
            (λ time. ([], ok (stored_of settings node a.created time made)))))

  unfoldable pub back_up_runtime :
      Bool → Option Bool → Answers → Runtime → BackupStore → Traced (Unit {0}) × BackupStore
  unfolding fetch_backup keep_backup entry_backup_settings backup_client_for remembered_choice
      node_of running_client
  back_up_runtime explicit include_credentials a r s =
      let settings = entry_backup_settings r in
      if backup_client_for settings
      then keep_backup explicit
          (fetch_backup settings (node_of r.transport) (running_client r.transport)
            (flag_of include_credentials (remembered_choice settings)) a)
          s
      else (([], complaint explicit), s)

  unfoldable pub back_up_found :
      Bool → Option Bool → Answers → Option Runtime → BackupStore → Traced (Unit {0}) × BackupStore
  unfolding back_up_runtime
  back_up_found explicit include_credentials a none s = (([], complaint explicit), s)
  back_up_found explicit include_credentials a (some r) s =
      back_up_runtime explicit include_credentials a r s

  -- `async_back_up_entry`
  unfoldable pub back_up_entry :
      Dict Runtime
      → Text
      → Bool
      → Option Bool
      → Answers
      → BackupStore
      → Traced (Unit {0}) × BackupStore
  unfolding set_up back_up_found
  back_up_entry runtimes entry_id explicit include_credentials a s =
      back_up_found explicit include_credentials a (set_up (lookup entry_id runtimes)) s
