-- ===== src/Direct/Connect.antt =====
-- direct.py, `async_connect_node`: the certificate is checked, and only then a request is sent.
use homekey_household.Prelude.{
  Text, codes, Bool, false, ◌==◌, Option, List, [], ◌∷◌, ◌++◌, ℤ, pos, int_eq, if◌then◌else◌,
}
use homekey_household.Models.Json.{Json, bool, int, float, str, Fields, get}
use homekey_household.Models.Errors.{Result, ok, raise, ◌>>=◌, protocol_error, fingerprint_mismatch}
use homekey_household.Models.Values.{Writer, mapping, or_json, text_of, truthy_json}
use homekey_household.Models.Guest.{object_or_empty}
use homekey_household.Command.Encoding.{Bytes}
use homekey_household.Direct.Client.{Exchange, request}
use homekey_household.Direct.Fingerprint.{certificate_fingerprint, fingerprints_match}
use homekey_household.Direct.Payloads.{resolve_identity}

-- What a `DirectClient` was made with; `der` is the certificate that its TLS context trusts.
pub record Client : Type 0 where
  pub host : Text
  pub port : ℤ
  pub der : Bytes
  pub username : Text
  pub password : Text

-- A request: GET, or POST with a body that may be missing.
pub data Call : Type 0 where
  get_call : Text → Call
  post_call : Text → Option Json → Call

-- A request that was sent, with the client whose credentials and certificate it used.
pub record Sent : Type 0 where
  pub client : Client
  pub call : Call

-- The requests that were sent, and how the chain of them ended.
abbrev pub Traced {ℓ} : Type ℓ → Type ℓ
Traced A = List Sent × Result A

-- One exchange, after which the rest runs when it succeeds.
abbrev pub then_send {ι κ} : {A : Type ι} {B : Type κ} → Sent → Result A → (A → Traced B) → Traced B
then_send s (raise e) rest = (s ∷ [], raise e)
then_send s (ok a) rest = let (sent, r) = rest a in (s ∷ sent, r)

-- Two chains, of which the second runs when the first succeeds.
abbrev pub after {ι κ} : {A : Type ι} {B : Type κ} → Traced A → (A → Traced B) → Traced B
after (sent, raise e) rest = (sent, raise e)
after (sent, ok a) rest = let (more, r) = rest a in (sent ++ more, r)

-- What the node at the address answers: its certificate (`raise` for OSError or ValueError), and its
-- two documents.
pub record Peer : Type 0 where
  pub certificate : Result Bytes
  pub info : Exchange
  pub state : Exchange

pub record Probe : Type 0 where
  pub client : Client
  pub fingerprint : Text
  pub household_id : Text
  pub household_name : Text
  pub node_id : Text
  pub node_name : Text
  pub model : Text
  pub firmware : Text
  pub info : Fields
  pub state : Fields

-- `reported == HA_API_PROTOCOL`, which `True` and `1.0` are too
unfoldable pub is_supported : Json → Bool
is_supported (int n) = int_eq n (pos 1)
is_supported (bool b) = b
is_supported (float x) = x == 0x3FF0000000000000
is_supported _ = false

-- `async_check_protocol`, after its request
unfoldable pub check_protocol : Json → Result Fields
unfolding mapping is_supported
check_protocol answer = do
  info ← mapping answer
  if is_supported (get info (codes "protocol")) then ok info else raise protocol_error

module _ (w : Writer) where
  -- What the two answers and the identity become.
  unfoldable pub probe_of : Client → Text → Fields → Fields → Text × Text → Probe
  unfolding text_of or_json truthy_json object_or_empty
  probe_of client fingerprint info state (household_id, node_id) =
      let device = object_or_empty (get info (codes "device")) in
      record {
        client = client;
        fingerprint = fingerprint;
        household_id = household_id;
        household_name =
            text_of w (or_json (get state (codes "household_name")) (str household_id));
        node_id = node_id;
        node_name = text_of w (
            or_json (or_json (get state (codes "node_name")) (get device (codes "node_name")))
              (str node_id));
        model = text_of w (or_json (get device (codes "model")) (str []));
        firmware = text_of w (
            or_json (or_json (get state (codes "firmware")) (get device (codes "firmware")))
              (str []));
        info = info;
        state = state;
      }

  -- The end: `async_get_state`, `resolve_identity` and the probe.
  unfoldable pub read_identity : Client → Text → Fields → Exchange → Traced Probe
  unfolding request mapping resolve_identity probe_of
  read_identity client fingerprint info state = (
    record { client = client; call = Call.get_call (codes "/api/ha/state") } ∷ [],
    do
      answer ← request state
      fs ← mapping answer
      ids ← resolve_identity w fs info
      ok (probe_of client fingerprint info fs ids),
  )

  -- The requests of a client whose certificate is the pinned one.
  unfoldable pub identify : Client → Text → Peer → Traced Probe
  unfolding request check_protocol read_identity
  identify client fingerprint peer =
      then_send (record { client = client; call = Call.get_call (codes "/api/ha/info") })
        (request peer.info >>= check_protocol)
        (λ info. read_identity client fingerprint info peer.state)

  -- The check of a certificate that was fetched.
  unfoldable pub check_certificate :
      (Bytes → Bytes) → Text → ℤ → Text → Text → Text → Peer → Bytes → Traced Probe
  unfolding certificate_fingerprint fingerprints_match identify
  check_certificate sha256 host port expected username password peer der =
      let actual = certificate_fingerprint sha256 der in
      if fingerprints_match expected actual
      then identify
          (record { host = host; port = port; der = der; username = username; password = password })
          actual peer
      else ([], raise fingerprint_mismatch)

  -- What follows the fetch of the certificate.
  unfoldable pub with_certificate :
      (Bytes → Bytes) → Text → ℤ → Text → Text → Text → Peer → Result Bytes → Traced Probe
  unfolding check_certificate
  with_certificate sha256 host port expected username password peer (raise e) = ([], raise e)
  with_certificate sha256 host port expected username password peer (ok der) =
      check_certificate sha256 host port expected username password peer der

  -- `async_connect_node`
  unfoldable pub connect_node :
      (Bytes → Bytes) → Text → ℤ → Text → Text → Text → Peer → Traced Probe
  unfolding with_certificate
  connect_node sha256 host port expected username password peer =
      with_certificate sha256 host port expected username password peer peer.certificate
