-- ===== src/Setup/Flow.antt =====
-- config_flow.py: the discovery of a node, and the step that makes an entry for it.
use homekey_household.Prelude.{
  Text, codes, truthy, text_eq, strip, all, ◌==◌, member, or_text, Dict, lookup, Bool, not, ◌&&◌,
  Option, none, some, List, [], ◌∷◌, ℤ, pos, int_eq, if◌then◌else◌,
}
use homekey_household.Models.Errors.{
  Error, Result, ok, raise, auth_failed, tls_unavailable, protocol_error, no_household,
  fingerprint_mismatch,
}
use homekey_household.Models.Values.{Writer}
use homekey_household.Command.Encoding.{Bytes}
use homekey_household.Direct.Connect.{Sent, Traced, Peer, Probe, connect_node}
use homekey_household.Direct.Fingerprint.{normalise_fingerprint}
use homekey_household.Backup.Service.{is_transport_error}

-- What Zeroconf hands over: the addresses and names of a node, and its TXT record as texts.
pub record Advert : Type 0 where
  pub ip_addresses : List Text
  pub host : Option Text
  pub hostname : Option Text
  pub port : Option ℤ
  pub properties : Dict Text

-- `host or hostname`
abbrev pub or_name : Option Text → Option Text → Option Text
or_name none d = d
or_name (some []) d = d
or_name (some (c ∷ s)) d = some (c ∷ s)

-- `text and ":" not in text`
unfoldable pub is_ipv4 : Text → Bool
is_ipv4 t = truthy t && all (λ c. not (c == b':')) t

unfoldable pub first_address : List Text → Option Text → Option Text
unfolding is_ipv4
first_address [] d = d
first_address (t ∷ rest) d = let later = first_address rest d in if is_ipv4 t then some t else later

-- `_preferred_host`
unfoldable pub preferred_host : Advert → Option Text
unfolding first_address
preferred_host a = first_address a.ip_addresses (or_name a.host a.hostname)

-- `properties.get(key) or ""`
unfoldable pub property : Text → Advert → Text
unfolding lookup
property key a = or_text (lookup key a.properties) []

pub record Discovery : Type 0 where
  pub host : Text
  pub port : ℤ
  pub fingerprint : Text
  pub node_id : Text
  pub node_name : Text
  pub model : Text
  pub version : Text

-- How the discovery ends: an abort with its reason, or the unique id and what is kept of the advert.
pub data Found : Type 0 where
  aborted : Text → Found
  found : Text → Discovery → Found

-- `if not host or not port`
abbrev pub with_address : Advert → Text → Option Text → Option ℤ → Found
with_address a fingerprint none port = Found.aborted (codes "node_address_unknown")
with_address a fingerprint (some host) none = Found.aborted (codes "node_address_unknown")
with_address a fingerprint (some host) (some port) =
    if truthy host && not (int_eq port (pos 0))
    then Found.found (normalise_fingerprint fingerprint) (record {
      host = host;
      port = port;
      fingerprint = fingerprint;
      node_id = property (codes "id") a;
      node_name = property (codes "name") a;
      model = property (codes "model") a;
      version = property (codes "ver") a;
    })
    else Found.aborted (codes "node_address_unknown")

-- `async_step_zeroconf`. The unique id is the fingerprint after the domain's name; an entry that has it
-- already makes Home Assistant abort the flow.
unfoldable pub step_zeroconf : Advert → Found
unfolding property preferred_host normalise_fingerprint
step_zeroconf a =
    if text_eq (property (codes "proto") a) (codes "1")
    then (if text_eq (property (codes "tls") a) (codes "1")
        then (if truthy (property (codes "fp") a)
            then with_address a (property (codes "fp") a) (preferred_host a) a.port
            else Found.aborted (codes "no_fingerprint"))
        else Found.aborted (codes "tls_required"))
    else Found.aborted (codes "unsupported_protocol")

-- `_DIRECT_ERROR_KEYS`, by the exact type
unfoldable pub error_key : Error → Text
error_key fingerprint_mismatch = codes "fingerprint_mismatch"
error_key auth_failed = codes "node_auth_failed"
error_key tls_unavailable = codes "tls_required"
error_key no_household = codes "no_household"
error_key protocol_error = codes "unsupported_protocol"
error_key _ = codes "node_unreachable"

-- The title and the data of a direct entry.
pub record DirectEntry : Type 0 where
  pub title : Text
  pub household_id : Text
  pub household_name : Text
  pub node_id : Text
  pub node_name : Text
  pub model : Text
  pub host : Text
  pub port : ℤ
  pub fingerprint : Text
  pub username : Text
  pub password : Text

-- How a step ends: the form again with an error, an abort, a new entry, an entry that is changed and
-- reloaded, or an exception.
pub data Step : Type 0 where
  form : Text → Step
  abort : Text → Step
  created : DirectEntry → Step
  updated : DirectEntry → Step
  crashed : Error → Step

-- What the entry of a probe holds.
unfoldable pub entry_of : Discovery → Probe → Text → Text → DirectEntry
entry_of d probe username password = record {
  title = if truthy probe.node_name then probe.node_name else probe.node_id;
  household_id = probe.household_id;
  household_name = probe.household_name;
  node_id = probe.node_id;
  node_name = probe.node_name;
  model = probe.model;
  host = d.host;
  port = d.port;
  fingerprint = probe.fingerprint;
  username = username;
  password = password;
}

-- `_async_create_direct_entry`; `households` are those of the entries that there are.
unfoldable pub create_direct_entry : List Text → Discovery → Probe → Text → Text → Step
unfolding member entry_of
create_direct_entry households d probe username password =
    if member probe.household_id households
    then Step.abort (codes "household_already_configured")
    else Step.created (entry_of d probe username password)

unfoldable pub after_probe : List Text → Discovery → Text → Text → Result Probe → Step
unfolding is_transport_error error_key create_direct_entry
after_probe households d username password (raise e) =
    if is_transport_error e then Step.form (error_key e) else Step.crashed e
after_probe households d username password (ok probe) =
    create_direct_entry households d probe username password

-- The requests of a probe, and the step that its result makes.
abbrev pub probed : Traced Probe → (Result Probe → Step) → List Sent × Step
probed t after = (t.0, after t.1)

module _ (w : Writer) (sha256 : Bytes → Bytes) where
  -- `async_step_direct`, of the credentials that the user gave
  unfoldable pub step_direct : List Text → Discovery → Text → Text → Peer → List Sent × Step
  unfolding connect_node after_probe strip
  step_direct households d given password peer =
      let username = strip given in
      if truthy username && truthy password
      then probed (connect_node w sha256 d.host d.port d.fingerprint username password peer)
          (after_probe households d username password)
      else ([], Step.form (codes "node_auth_failed"))

  -- `async_step_reauth_confirm`: the new credentials, once the node accepts them.
  unfoldable pub after_reauth : DirectEntry → Text → Text → Result Probe → Step
  unfolding is_transport_error error_key
  after_reauth e username password (raise err) =
      if is_transport_error err then Step.form (error_key err) else Step.crashed err
  after_reauth e username password (ok probe) =
      Step.updated (record e { username = username; password = password })

  unfoldable pub step_reauth : DirectEntry → Text → Text → Peer → List Sent × Step
  unfolding connect_node after_reauth strip
  step_reauth e given password peer =
      let username = strip given in
      if truthy username && truthy password
      then probed (connect_node w sha256 e.host e.port e.fingerprint username password peer)
          (after_reauth e username password)
      else ([], Step.form (codes "node_auth_failed"))
