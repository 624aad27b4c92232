-- ===== src/Direct/Trust.antt =====
-- direct.py, `async_connect_node`: what is sent, and what a probe guarantees.
use homekey_household.Prelude.{
  Text, codes, All, Bool-cases, true, ◌≡◌, refl, subst, ℤ, inl, inr, arith,
}
use homekey_household.Models.Json.{Json, Fields, get}
use homekey_household.Models.Errors.{Result, ok, raise, ◌>>=◌}
use homekey_household.Models.Values.{Writer, mapping}
use homekey_household.Command.Encoding.{Bytes}
use homekey_household.Models.Parts.{>>=-eq-ok, ok_injective}
use homekey_household.Direct.Client.{Exchange, request}
use homekey_household.Direct.Fingerprint.{certificate_fingerprint, fingerprints_match}
use homekey_household.Direct.Payloads.{resolve_identity}
use homekey_household.Direct.Connect.{
  Client, Call, Traced, then_send, Peer, Probe, is_supported, check_protocol, probe_of,
  read_identity, identify, check_certificate, with_certificate, connect_node,
}

module _ (w : Writer) (sha256 : Bytes → Bytes) (expected : Text) (peer : Peer) where
  -- A client that trusts the certificate that the node showed, whose fingerprint is the pinned one.
  pub record IsPinned (client : Client) : Type 0 where
    pub shown : peer.certificate ≡ ok client.der
    pub pinned : fingerprints_match expected (certificate_fingerprint sha256 client.der) ≡ true

  -- A probe of a node of the supported protocol, which named its household and itself.
  pub record IsIdentified (probe : Probe) : Type 0 where
    pub pinned : IsPinned probe.client
    pub protocol : is_supported (get probe.info (codes "protocol")) ≡ true
    pub identity :
        resolve_identity w probe.state probe.info ≡ ok (probe.household_id, probe.node_id)

  -- What holds of a value that was returned.
  abbrev pub Returns {κ} : (Probe → Type κ) → Result Probe → Type κ
  Returns P (raise e) = Unit
  Returns P (ok a) = P a

  abbrev pub IsTrusted : Traced Probe → Type 0
  IsTrusted t = All (λ s. IsPinned s.client) t.0 × Returns IsIdentified t.1

  Returns-all {κ} :
      {P : Probe → Type κ} (r : Result Probe) → ((a : Probe) → r ≡ ok a → P a) → Returns P r
  Returns-all (raise e) h = tt
  Returns-all (ok a) h = h a refl

  read_identity-IsTrusted :
      (client : Client) (fingerprint : Text) (info : Fields) (state : Exchange)
      → IsPinned client
      → is_supported (get info (codes "protocol")) ≡ true
      → IsTrusted (read_identity w client fingerprint info state)
  unfolding read_identity probe_of
  read_identity-IsTrusted client fingerprint info state p s = (
    (p, tt),
    Returns-all _ (λ probe e.
        let (answer, answered, e) = >>=-eq-ok (request state) _ e in
        let (fs, read, e) = >>=-eq-ok (mapping answer) _ e in
        let (ids, named, e) = >>=-eq-ok (resolve_identity w fs info) _ e in
        subst IsIdentified (ok_injective e)
          (record { pinned = p; protocol = s; identity = named })),
  )

  check_protocol-ok :
      (answer : Json) (info : Fields)
      → check_protocol answer ≡ ok info
      → is_supported (get info (codes "protocol")) ≡ true
  unfolding check_protocol
  check_protocol-ok answer info e =
      let (fs, read, e) = >>=-eq-ok (mapping answer) _ e in ground arith

  then_read-IsTrusted :
      (client : Client) (fingerprint : Text) (call : Call) (r : Result Fields)
      → IsPinned client
      → ((info : Fields) → r ≡ ok info → is_supported (get info (codes "protocol")) ≡ true)
      → IsTrusted (
          then_send
            (record { client = client; call = call })
            r
            (λ info. read_identity w client fingerprint info peer.state))
  then_read-IsTrusted client fingerprint call (raise e) p s = ((p, tt), tt)
  then_read-IsTrusted client fingerprint call (ok info) p s =
      let (sent, r) = read_identity-IsTrusted client fingerprint info peer.state p (s info refl) in
      ((p, sent), r)

  identify-IsTrusted :
      (client : Client) (fingerprint : Text)
      → IsPinned client
      → IsTrusted (identify w client fingerprint peer)
  unfolding identify
  identify-IsTrusted client fingerprint p =
      then_read-IsTrusted client fingerprint _ (request peer.info >>= check_protocol) p (λ info e.
        let (answer, answered, e) = >>=-eq-ok (request peer.info) _ e in
        check_protocol-ok answer info e)

  check_certificate-IsTrusted :
      (host : Text) (port : ℤ) (username password : Text) (der : Bytes)
      → peer.certificate ≡ ok der
      → IsTrusted (check_certificate w sha256 host port expected username password peer der)
  unfolding check_certificate
  check_certificate-IsTrusted host port username password der shown =
      elim (Bool-cases (fingerprints_match expected (certificate_fingerprint sha256 der))) [
        | inl same ↦
            rw (same, check_certificate)
              (identify-IsTrusted _ _ (record { shown = shown; pinned = same }))
        | inr other ↦ rw (other, check_certificate) (tt, tt)
      ]

  with_certificate-IsTrusted :
      (host : Text) (port : ℤ) (username password : Text) (r : Result Bytes)
      → peer.certificate ≡ r
      → IsTrusted (with_certificate w sha256 host port expected username password peer r)
  unfolding with_certificate
  with_certificate-IsTrusted host port username password (raise e) failed = (tt, tt)
  with_certificate-IsTrusted host port username password (ok der) shown =
      check_certificate-IsTrusted host port username password der shown

  -- Whatever the node answers: no request is sent, and no credential with it, but by a client that
  -- trusts exactly the certificate that the node showed, and whose fingerprint matches the pinned
  -- one; and a probe is returned only by such a client, from a node of the supported protocol, with
  -- the household and the node that its answers name.
  pub connect_node-IsTrusted :
      (host : Text) (port : ℤ) (username password : Text)
      → IsTrusted (connect_node w sha256 host port expected username password peer)
  unfolding connect_node
  connect_node-IsTrusted host port username password =
      with_certificate-IsTrusted host port username password peer.certificate refl
