-- ===== src/Coordinator/Merging.antt =====
-- What a `state` payload and the broker's will change in a known node, and what they keep.
use homekey_household.Prelude.{
  Text, codes, text_eq, member, strip, lower, lookup, insert, keys, lookup-insert_self, Bool, true,
  ◌&&◌, none, some, ◌≡◌, refl, subst, inl, inr, arith, Bool-cases, Option-cases,
}
use homekey_household.Models.Json.{Json}
use homekey_household.Models.Errors.{ok}
use homekey_household.Models.Node.{Node, from_state, available}
use homekey_household.Coordinator.Store.{
  Coordinator, Moment, or_kept, merged, merge_node, ensured, ensure_node,
}
use homekey_household.Coordinator.Handlers.{
  handle_state, handle_legacy_status, handle_node_status, with_presence, presence_words,
}
use homekey_household.Coordinator.Registry.{keys-insert_present}

-- The node after an accepted `state` payload: its description is new, a generation or a version that
-- the payload lacks is kept, and all telemetry is kept.
pub record Redescribed (old incoming n : Node) : Type 0 where
  pub name : n.node_name ≡ incoming.node_name
  pub role : n.node_role ≡ incoming.node_role
  pub state : n.node_state ≡ incoming.node_state
  pub generation : n.generation ≡ or_kept incoming.generation old.generation
  pub firmware : n.firmware ≡ or_kept incoming.firmware old.firmware
  pub online : n.online ≡ old.online
  pub lwt_online : n.lwt_online ≡ old.lwt_online
  pub last_seen : n.last_seen ≡ old.last_seen
  pub health : n.health ≡ old.health
  pub security : n.security ≡ old.security
  pub backup_status : n.backup_status ≡ old.backup_status
  pub backup : n.backup ≡ old.backup
  pub last_auth : n.last_auth ≡ old.last_auth
  pub guest : n.guest ≡ old.guest
  pub lock_change : n.lock_change ≡ old.lock_change
  pub lock_change_is_fresh : n.lock_change_is_fresh ≡ old.lock_change_is_fresh
  pub attributed : n.attributed_lock_change ≡ old.attributed_lock_change

merged-Redescribed : (old incoming : Node) → Redescribed old incoming (merged incoming old)
unfolding merged
merged-Redescribed old incoming = record {
  name = refl;
  role = refl;
  state = refl;
  generation = refl;
  firmware = refl;
  online = refl;
  lwt_online = refl;
  last_seen = refl;
  health = refl;
  security = refl;
  backup_status = refl;
  backup = refl;
  last_auth = refl;
  guest = refl;
  lock_change = refl;
  lock_change_is_fresh = refl;
  attributed = refl;
}

from_state-id :
    (household k : Text) (payload : Json) (n : Node)
    → from_state household k payload ≡ ok n
    → n.node_id ≡ k
unfolding from_state
from_state-id household k payload n e = ground arith

merge_known :
    (k : Text) (incoming old : Node) (c : Coordinator)
    → incoming.node_id ≡ k
    → lookup k c.nodes ≡ some old
    → (merge_node incoming c).nodes ≡ insert k (merged incoming old) c.nodes
unfolding merge_node
merge_known k incoming old c same =
    subst
      (λ j.
        lookup j c.nodes ≡ some old
        → (merge_node incoming c).nodes ≡ insert j (merged incoming old) c.nodes)
      same (λ found. rw (found, merge_node))

-- An accepted `state` payload of a known node redescribes it, and keeps what was reported of it.
pub handle_state_known :
    (k : Text) (payload : Json) (c : Coordinator) (old incoming : Node)
    → lookup k c.nodes ≡ some old
    → from_state c.household_id k payload ≡ ok incoming
    → (n : Node) × (lookup k (handle_state k payload c).1.nodes ≡ some n)
      × Redescribed old incoming n
unfolding handle_state
handle_state_known k payload c old incoming found e =
    let same = from_state-id c.household_id k payload incoming e in
    (
      merged incoming old,
      rw (e, merge_known k incoming old c same found)
          (lookup-insert_self k (merged incoming old) c.nodes),
      merged-Redescribed old incoming,
    )

-- The will of the broker connection never adds a node: whatever its payload, the filed ids stay as
-- they are, and for an unknown client nothing changes at all.
pub legacy_adds_nothing :
    (m : Moment) (k raw : Text) (c : Coordinator)
    → (keys (handle_legacy_status m k raw c).1.nodes ≡ keys c.nodes)
      × (lookup k c.nodes ≡ none → (handle_legacy_status m k raw c).1 ≡ c)
unfolding handle_legacy_status
legacy_adds_nothing m k raw c = elim (Bool-cases (member (lower (strip raw)) presence_words)) [
  | inr bad ↦ (rw bad, λ _. rw bad)
  | inl good ↦ elim (Option-cases (lookup k c.nodes)) [
    | inl absent ↦ (rw (good, absent), λ _. rw (good, absent))
    | inr (n, found) ↦
        (rw (good, found) (keys-insert_present k n _ c.nodes found), λ missing. absurd (cc))
  ]
]

presence : (m : Moment) (n : Node) (b : Bool) → available (with_presence m b n) ≡ (n.online && b)
unfolding available with_presence
presence m n b = ground arith

-- After `online` or `offline` on the node's own topic and on the will of its connection, in that
-- order, the node is available exactly if both said online.
pub available_iff_both :
    (m m' : Moment) (k own will : Text) (c : Coordinator)
    → member (lower (strip own)) presence_words ≡ true
    → member (lower (strip will)) presence_words ≡ true
    → (n : Node) × (lookup k
          (handle_legacy_status m' k will (handle_node_status m k own c).1).1.nodes
        ≡ some n)
      × (available n ≡ (
          text_eq (lower (strip own)) (codes "online")
          && text_eq (lower (strip will)) (codes "online")))
unfolding handle_legacy_status handle_node_status
available_iff_both m m' k own will c good good' =
    let n : Node = record (ensured k c) {
      online = text_eq (lower (strip own)) (codes "online");
      last_seen = some m.now_iso;
    } in
    let n' = with_presence m' (text_eq (lower (strip will)) (codes "online")) n in
    (
      n',
      rw (good, good', lookup-insert_self k n (ensure_node k c).nodes) (lookup-insert_self k n' _),
      presence m' n (text_eq (lower (strip will)) (codes "online")),
    )
