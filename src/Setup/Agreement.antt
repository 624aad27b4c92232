-- ===== src/Setup/Agreement.antt =====
-- config_flow.py and __init__.py: an entry that the flow made is one that the start accepts.
use homekey_household.Prelude.{
  Text, truthy, text_eq_iff, strip, member, true, false, ◌&&◌, Bool-cases, List, [], ◌≡◌, refl, sym,
  ap, ◌∙◌, subst, inl, inr,
}
use homekey_household.Models.Errors.{Result, ok, raise}
use homekey_household.Models.Values.{Writer}
use homekey_household.Command.Encoding.{Bytes}
use homekey_household.Coordinator.Store.{Platform, Coordinator}
use homekey_household.Direct.Fingerprint.{certificate_fingerprint, fingerprints_match}
use homekey_household.Direct.Connect.{Peer, Probe, connect_node}
use homekey_household.Direct.Poller.{Poll, new_poller, poll_safely}
use homekey_household.Backup.Service.{is_transport_error}
use homekey_household.Setup.Flow.{
  Discovery, DirectEntry, Step, entry_of, create_direct_entry, after_probe, step_direct,
}
use homekey_household.Setup.Start.{Start, StartError, polled, begin, start_direct, start_error}
use homekey_household.Setup.Connection.{
  fingerprints_match_self, with_certificate-Connected, connect_node_stranger, connect_node_again,
}

created_injective : (e e' : DirectEntry) → Step.created e ≡ Step.created e' → e ≡ e'
created_injective e e' h = cc

after_probe-created :
    (households : List Text) (d : Discovery) (username password : Text) (r : Result Probe)
    (e : DirectEntry)
    → after_probe households d username password r ≡ Step.created e
    → (probe : Probe) × (r ≡ ok probe)
      × (member probe.household_id households ≡ false)
      × (entry_of d probe username password ≡ e)
unfolding after_probe create_direct_entry
after_probe-created households d username password (raise err) e h =
    elim (Bool-cases (is_transport_error err)) [
      | inl transport ↦ absurd (let h' = rw transport at h in cc h')
      | inr other ↦ absurd (let h' = rw other at h in cc h')
    ]
after_probe-created households d username password (ok probe) e h =
    elim (Bool-cases (member probe.household_id households)) [
      | inl there ↦ absurd (let h' = rw there at h in cc h')
      | inr new ↦ (probe, refl, new, created_injective _ e (rw new at h))
    ]

-- The step made an entry of a probe over the address of the discovery, with the credentials given.
pub record IsMade (w : Writer) (sha256 : Bytes → Bytes) (households : List Text) (d : Discovery)
    (password : Text) (peer : Peer) (e : DirectEntry) : Type 0 where
  pub probe : Probe
  pub username : Text
  pub connected :
      (connect_node w sha256 d.host d.port d.fingerprint username password peer).1 ≡ ok probe
  pub new : member probe.household_id households ≡ false
  pub entry : entry_of d probe username password ≡ e

pub step_direct-IsMade :
    (w : Writer) (sha256 : Bytes → Bytes) (households : List Text) (d : Discovery)
    (given password : Text) (peer : Peer) (e : DirectEntry)
    → (step_direct w sha256 households d given password peer).1 ≡ Step.created e
    → IsMade w sha256 households d password peer e
unfolding step_direct
step_direct-IsMade w sha256 households d given password peer e h =
    elim (Bool-cases (truthy (strip given) && truthy password)) [
      | inl full ↦
          let (probe, connected, new, entry) =
            after_probe-created households d (strip given) password _ e (rw full at h) in
          record {
            probe = probe;
            username = strip given;
            connected = connected;
            new = new;
            entry = entry;
          }
      | inr empty ↦ absurd (let h' = rw empty at h in cc h')
    ]

module _ (p : Platform) (w : Writer) (sha256 : Bytes → Bytes) (c : Coordinator) (peer : Peer)
    (first : Poll) where
  -- The start verified the node: the certificate that it showed has the fingerprint of the entry; the
  -- client that is kept trusts that certificate and has the entry's address and credentials; and the
  -- start ends as the first reading of the poller does.
  pub record Reaches (e : DirectEntry) : Type 0 where
    pub der : Bytes
    pub shown : peer.certificate ≡ ok der
    pub pinned : fingerprints_match e.fingerprint (certificate_fingerprint sha256 der) ≡ true
    pub reads :
        (start_direct p w sha256 e c peer first).1
        ≡ polled
            (record {
              host = e.host;
              port = e.port;
              der = der;
              username = e.username;
              password = e.password;
            })
            (poll_safely p w first (new_poller c.household_id c))

  start_entry_of :
      (d : Discovery) (probe : Probe) (username password : Text)
      → (connect_node w sha256 d.host d.port d.fingerprint username password peer).1 ≡ ok probe
      → c.household_id ≡ probe.household_id
      → Reaches (entry_of d probe username password)
  unfolding start_direct begin entry_of connect_node
  start_entry_of d probe username password e same =
      let again =
        connect_node_again w sha256 d.host d.port username password peer d.fingerprint probe e in
      let named = (text_eq_iff probe.household_id c.household_id).1 (sym same) in
      let k =
        with_certificate-Connected w sha256 d.host d.port username password peer d.fingerprint
          peer.certificate probe e in
      record {
        der = k.der;
        shown = k.shown;
        pinned =
            subst (λ f. fingerprints_match f (certificate_fingerprint sha256 k.der) ≡ true)
              (sym k.named) (fingerprints_match_self (certificate_fingerprint sha256 k.der));
        reads =
            ap (λ t. begin p w sha256 c first t.1) again
            ∙ ap (begin p w sha256 c first) e
            ∙ rw (named, begin)
                (ap (λ client. polled client (poll_safely p w first (new_poller c.household_id c)))
                  k.client);
      }

  -- For an entry that the direct step made, and a coordinator of its household: against the node that
  -- the step met, the start accepts the certificate, whose fingerprint is the entry's, and ends as the
  -- first reading does, with a client that trusts that certificate alone and has the entry's address and
  -- credentials. Against a node that shows a certificate with another fingerprint, it sends nothing
  -- and is refused.
  pub created-Reaches :
      (households : List Text) (d : Discovery) (given password : Text) (e : DirectEntry)
      (stranger : Peer) (der : Bytes)
      → (step_direct w sha256 households d given password peer).1 ≡ Step.created e
      → c.household_id ≡ e.household_id
      → stranger.certificate ≡ ok der
      → fingerprints_match e.fingerprint (certificate_fingerprint sha256 der) ≡ false
      → Reaches e
        × (start_direct p w sha256 e c stranger first ≡ ([], Start.failed StartError.refused))
  unfolding start_direct
  created-Reaches households d given password e stranger der made same shown other =
      let m = step_direct-IsMade w sha256 households d given password peer e made in
      (
        subst Reaches m.entry (
            start_entry_of d m.probe m.username password m.connected
              (same ∙ unfold entry_of in ap (λ e'. e'.household_id) (sym m.entry))),
        ap (λ t. (t.0, begin p w sha256 c first t.1))
              (connect_node_stranger w sha256 e.host e.port e.username e.password stranger
                e.fingerprint der shown other)
            ∙ unfold begin start_error in refl,
      )
