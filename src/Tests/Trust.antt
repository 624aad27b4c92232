-- ===== src/Tests/Trust.antt =====
-- Fingerprints and connections at a concrete certificate.
use homekey_household.Prelude.{codes, true, [], ◌∷◌, ◌≡◌, ◌↔◌, arith, pos}
use homekey_household.Models.Json.{int, str, obj, end, field}
use homekey_household.Models.Errors.{ok}
use homekey_household.Command.Encoding.{Bytes, to_hex}
use homekey_household.Direct.Client.{Exchange}
use homekey_household.Direct.Fingerprint.{format_fingerprint, fingerprints_match}
use homekey_household.Direct.Pinning.{fingerprints_match-formats}
use homekey_household.Direct.Connect.{Peer, connect_node}
use homekey_household.Direct.Trust.{IsTrusted, connect_node-IsTrusted}
use homekey_household.Tests.Data.{home, gate, writer}

abbrev digest : Bytes
digest = 171 ∷ 9 ∷ []

fingerprints_match-formats_example :
    ((fingerprints_match (format_fingerprint digest) (format_fingerprint digest) ≡ true)
      ↔ (digest ≡ digest))
    × ((fingerprints_match (to_hex digest) (format_fingerprint digest) ≡ true) ↔ (digest ≡ digest))
fingerprints_match-formats_example =
    fingerprints_match-formats digest digest (omega arith, (omega arith, tt))
      (omega arith, (omega arith, tt))

abbrev pub whole_digest : Bytes → Bytes
whole_digest der = der

abbrev pub peer : Peer
peer = record {
  certificate = ok digest;
  info = Exchange.response 200 (ok (obj (field (codes "protocol") (int (pos 1)) end)));
  state =
      Exchange.response 200 (
        ok
          (obj (field (codes "household_id") (str home) (field (codes "node_id") (str gate) end))));
}

connect_node-IsTrusted_example : IsTrusted writer whole_digest (codes "ab:09") peer (
    connect_node writer whole_digest
      (codes "10.0.0.2")
      (pos 443)
      (codes "ab:09")
      (codes "admin")
      (codes "secret")
      peer)
connect_node-IsTrusted_example =
    connect_node-IsTrusted writer whole_digest (codes "ab:09") peer (codes "10.0.0.2") (pos 443)
      (codes "admin") (codes "secret")
