-- ===== src/Setup/Connection.antt =====
-- direct.py and config_flow.py: what a connection that gave a probe says, and what another one gives for
-- the fingerprint of that probe.
use homekey_household.Prelude.{
  Text, text_eq_self, true, false, Bool-cases, [], ◌≡◌, refl, sym, ap, subst, ℤ, inl, inr,
}
use homekey_household.Models.Errors.{Result, ok, raise, ◌>>=◌, fingerprint_mismatch}
use homekey_household.Models.Values.{Writer, mapping}
use homekey_household.Models.Json.{Fields}
use homekey_household.Models.Parts.{>>=-eq-ok, ok_injective}
use homekey_household.Command.Encoding.{Bytes}
use homekey_household.Direct.Client.{Exchange, request}
use homekey_household.Direct.Fingerprint.{
  certificate_fingerprint, fingerprints_match, normalise_fingerprint,
}
use homekey_household.Direct.Payloads.{resolve_identity}
use homekey_household.Direct.Connect.{
  Client, Sent, then_send, Peer, Probe, check_protocol, probe_of, read_identity, identify,
  check_certificate, with_certificate, connect_node,
}

pub fingerprints_match_self : (s : Text) → fingerprints_match s s ≡ true
unfolding fingerprints_match
fingerprints_match_self s = text_eq_self (normalise_fingerprint s)

module _ (w : Writer) (sha256 : Bytes → Bytes) where
  read_identity-fingerprint :
      (client : Client) (fingerprint : Text) (info : Fields) (state : Exchange) (probe : Probe)
      → (read_identity w client fingerprint info state).1 ≡ ok probe
      → (probe.fingerprint ≡ fingerprint) × (probe.client ≡ client)
  unfolding read_identity probe_of
  read_identity-fingerprint client fingerprint info state probe e =
      let (answer, answered, e) = >>=-eq-ok (request state) _ e in
      let (fs, read, e) = >>=-eq-ok (mapping answer) _ e in
      let (ids, named, e) = >>=-eq-ok (resolve_identity w fs info) _ e in
      (ap (λ q. q.fingerprint) (sym (ok_injective e)), ap (λ q. q.client) (sym (ok_injective e)))

  then_read-fingerprint :
      (client : Client) (fingerprint : Text) (s : Sent) (r : Result Fields) (state : Exchange)
      (probe : Probe)
      → (then_send s r (λ info. read_identity w client fingerprint info state)).1 ≡ ok probe
      → (probe.fingerprint ≡ fingerprint) × (probe.client ≡ client)
  then_read-fingerprint client fingerprint s (raise err) state probe e = absurd (cc)
  then_read-fingerprint client fingerprint s (ok info) state probe e =
      read_identity-fingerprint client fingerprint info state probe e

  identify-fingerprint :
      (client : Client) (fingerprint : Text) (peer : Peer) (probe : Probe)
      → (identify w client fingerprint peer).1 ≡ ok probe
      → (probe.fingerprint ≡ fingerprint) × (probe.client ≡ client)
  unfolding identify
  identify-fingerprint client fingerprint peer probe e =
      then_read-fingerprint client fingerprint _ (request peer.info >>= check_protocol) peer.state
        probe e

  -- What a probe says of its connection: the certificate that was shown is the one that its client
  -- trusts, and its fingerprint is the one that it reports.
  pub record Connected (host : Text) (port : ℤ) (username password : Text) (r : Result Bytes)
      (probe : Probe) : Type 0 where
    pub der : Bytes
    pub shown : r ≡ ok der
    pub named : probe.fingerprint ≡ certificate_fingerprint sha256 der
    pub client :
        probe.client
        ≡ record { host = host; port = port; der = der; username = username; password = password }

  module _ (host : Text) (port : ℤ) (username password : Text) (peer : Peer) where
    check_certificate-Connected :
        (expected : Text) (der : Bytes) (probe : Probe)
        → (check_certificate w sha256 host port expected username password peer der).1 ≡ ok probe
        → Connected host port username password (ok der) probe
    unfolding check_certificate
    check_certificate-Connected expected der probe e =
        let actual = certificate_fingerprint sha256 der in
        let client : Client = record {
          host = host;
          port = port;
          der = der;
          username = username;
          password = password;
        } in
        elim (Bool-cases (fingerprints_match expected actual)) [
          | inl same ↦
              let (named, of_client) =
                identify-fingerprint client actual peer probe (rw same at e) in
              record { der = der; shown = refl; named = named; client = of_client }
          | inr other ↦ absurd (let e' = rw other at e in cc e')
        ]

    pub with_certificate-Connected :
        (expected : Text) (r : Result Bytes) (probe : Probe)
        → (with_certificate w sha256 host port expected username password peer r).1 ≡ ok probe
        → Connected host port username password r probe
    unfolding with_certificate
    with_certificate-Connected expected (raise err) probe e = absurd (cc)
    with_certificate-Connected expected (ok der) probe e =
        check_certificate-Connected expected der probe e

    -- Another certificate than the expected one ends the connection before any request.
    pub connect_node_stranger :
        (expected : Text) (der : Bytes)
        → peer.certificate ≡ ok der
        → fingerprints_match expected (certificate_fingerprint sha256 der) ≡ false
        → connect_node w sha256 host port expected username password peer
          ≡ ([], raise fingerprint_mismatch)
    unfolding connect_node with_certificate
    connect_node_stranger expected der shown other =
        rw (connect_node, with_certificate, shown, check_certificate, other) refl

    -- A certificate that was accepted is accepted under the fingerprint that the probe reports.
    check_certificate_again :
        (expected : Text) (der : Bytes) (probe : Probe)
        → (check_certificate w sha256 host port expected username password peer der).1 ≡ ok probe
        → check_certificate w sha256 host port probe.fingerprint username password peer der
          ≡ check_certificate w sha256 host port expected username password peer der
    unfolding check_certificate
    check_certificate_again expected der probe e =
        let actual = certificate_fingerprint sha256 der in
        let client : Client = record {
          host = host;
          port = port;
          der = der;
          username = username;
          password = password;
        } in
        elim (Bool-cases (fingerprints_match expected actual)) [
          | inl same ↦
              let (named, _) = identify-fingerprint client actual peer probe (rw same at e) in
              subst
                (λ f.
                  check_certificate w sha256 host port f username password peer der
                  ≡ check_certificate w sha256 host port expected username password peer der)
                (sym named) (rw (fingerprints_match_self actual, same) refl)
          | inr other ↦ absurd (let e' = rw other at e in cc e')
        ]

    with_certificate_again :
        (expected : Text) (r : Result Bytes) (probe : Probe)
        → (with_certificate w sha256 host port expected username password peer r).1 ≡ ok probe
        → with_certificate w sha256 host port probe.fingerprint username password peer r
          ≡ with_certificate w sha256 host port expected username password peer r
    unfolding with_certificate
    with_certificate_again expected (raise err) probe e = refl
    with_certificate_again expected (ok der) probe e = check_certificate_again expected der probe e

    pub connect_node_again :
        (expected : Text) (probe : Probe)
        → (connect_node w sha256 host port expected username password peer).1 ≡ ok probe
        → connect_node w sha256 host port probe.fingerprint username password peer
          ≡ connect_node w sha256 host port expected username password peer
    unfolding connect_node
    connect_node_again expected probe e = with_certificate_again expected peer.certificate probe e
