-- ===== src/Coordinator/EventKept.antt =====
-- coordinator.py: a message that is not a lock event of a node leaves the node's event, and the mark of
-- the event that was announced.
use homekey_household.Prelude.{
  Text, text_eq, text_eq_iff, lookup, lookup-insert_self, member, lower, strip, Bool, true, false,
  Bool-cases, if◌then◌else◌, some, ◌≡◌, ◌≢◌, ◌⊎◌, refl, ap, ◌∙◌, subst, inl, inr,
}
use homekey_household.Models.Json.{Json}
use homekey_household.Models.Errors.{Error, Result, ok, raise}
use homekey_household.Models.Health
use homekey_household.Models.Node.{Node, from_state}
use homekey_household.Mqtt.Inbound.{HomeKeyMessage}
use homekey_household.Coordinator.Store.{
  Platform, Moment, Coordinator, put_node, ensured, ensure_node, merge_node, merged,
}
use homekey_household.Coordinator.Handlers.{
  Outcome, with_value, previous_current, presence_words, with_presence, handle_legacy_status,
  handle_health, store_health, handle_node_status, handle_security, handle_backup_status,
  handle_backup_last, handle_last_auth, handle_guest_status, handle_state,
}
use homekey_household.Coordinator.Dispatch.{Kind, handle, dispatch, decode, node_of}
use homekey_household.Coordinator.Effects.{Result-cases, attribute_lock_change-SameRegistry}
use homekey_household.Coordinator.Frame.{dispatch_frame, finish-nodes, from_state-id}
use homekey_household.Coordinator.Publication.{kind_of_message}
use homekey_household.Coordinator.Redelivery.{ensured_present}

-- A node of the state with the event on record and the mark of a node.
pub record SameEvent (k : Text) (n : Node) (c : Coordinator) : Type 0 where
  pub node : Node
  pub found : lookup k c.nodes ≡ some node
  pub event : node.lock_change ≡ n.lock_change
  pub mark : node.attributed_lock_change ≡ n.attributed_lock_change

put-SameEvent :
    (k : Text) (n n' : Node) (c : Coordinator)
    → n'.lock_change ≡ n.lock_change
    → n'.attributed_lock_change ≡ n.attributed_lock_change
    → SameEvent k n (put_node k n' c)
put-SameEvent k n n' c e f = record {
  node = n';
  found = lookup-insert_self k n' c.nodes;
  event = e;
  mark = f;
}

merge_node-SameEvent :
    (k : Text) (n incoming : Node) (c : Coordinator)
    → lookup k c.nodes ≡ some n
    → incoming.node_id ≡ k
    → SameEvent k n (merge_node incoming c)
unfolding merge_node merged
merge_node-SameEvent k n incoming c there id =
    let found : lookup incoming.node_id c.nodes ≡ some n = rw id there in
    subst (λ j. SameEvent j n (merge_node incoming c)) id
      (rw (merge_node, found) (put-SameEvent incoming.node_id n (merged incoming n) c refl refl))

module _ (k : Text) (n : Node) (c : Coordinator) (there : lookup k c.nodes ≡ some n) where
  unchanged : SameEvent k n c
  unchanged = record { node = n; found = there; event = refl; mark = refl }

  ensured_event :
      ((ensured k c).lock_change ≡ n.lock_change)
      × ((ensured k c).attributed_lock_change ≡ n.attributed_lock_change)
  ensured_event =
      let (same, _) = ensured_present k n c there in
      (ap (λ x. x.lock_change) same, ap (λ x. x.attributed_lock_change) same)

  word_handler-SameEvent :
      (good : Bool) (e : Error) (n' : Node)
      → n'.lock_change ≡ (ensured k c).lock_change
      → n'.attributed_lock_change ≡ (ensured k c).attributed_lock_change
      → SameEvent k n (
          let o : Outcome =
            if good then (ok tt, put_node k n' (ensure_node k c)) else (raise e, c) in
          o.1)
  word_handler-SameEvent true e n' f g =
      put-SameEvent k n n' _ (f ∙ ensured_event.0) (g ∙ ensured_event.1)
  word_handler-SameEvent false e n' f g = unchanged

  field_handler-SameEvent {ℓ} :
      {A : Type ℓ} (r : Result A) (f : A → Node)
      → ((a : A) → (f a).lock_change ≡ (ensured k c).lock_change)
      → ((a : A) → (f a).attributed_lock_change ≡ (ensured k c).attributed_lock_change)
      → SameEvent k n (with_value r c (λ a. put_node k (f a) (ensure_node k c))).1
  field_handler-SameEvent (ok a) f g h =
      put-SameEvent k n (f a) _ (g a ∙ ensured_event.0) (h a ∙ ensured_event.1)
  field_handler-SameEvent (raise e) f g h = unchanged

  presence-SameEvent : (m : Moment) (b : Bool) → SameEvent k n (put_node k (with_presence m b n) c)
  unfolding with_presence
  presence-SameEvent m true = put-SameEvent k n _ c refl refl
  presence-SameEvent m false = put-SameEvent k n _ c refl refl

  legacy-SameEvent : (m : Moment) (raw : Text) → SameEvent k n (handle_legacy_status m k raw c).1
  unfolding handle_legacy_status
  legacy-SameEvent m raw = elim (Bool-cases (member (lower (strip raw)) presence_words)) [
    | inr bad ↦ rw bad unchanged
    | inl good ↦ rw (good, there) (presence-SameEvent m _)
  ]

  state-SameEvent : (payload : Json) → SameEvent k n (handle_state k payload c).1
  unfolding handle_state
  state-SameEvent payload = elim (Result-cases (from_state c.household_id k payload)) [
    | inr (e, failed) ↦ rw failed unchanged
    | inl (incoming, read) ↦
        let id = from_state-id c.household_id k payload incoming read in
        rw read (merge_node-SameEvent k n incoming c there id)
  ]

  health-SameEvent : (p : Platform) (payload : Json) → SameEvent k n (handle_health p k payload c).1
  unfolding handle_health store_health
  health-SameEvent p payload = elim (Result-cases (Health.from_dict payload c.household_id k)) [
    | inr (e, failed) ↦ let (_, kept) = ensured_present k n c there in rw (failed, kept) unchanged
    | inl (health, read) ↦
        let n' : Node = record (ensured k c) {
          health = some health;
          lock_change_is_fresh = false;
        } in
        let s = put-SameEvent k n n' (ensure_node k c) ensured_event.0 ensured_event.1 in
        let same =
          attribute_lock_change-SameRegistry p n' (previous_current (ensured k c).health) health
            (put_node k n' (ensure_node k c)) in
        rw read
          (record { node = s.node; found = rw same.nodes s.found; event = s.event; mark = s.mark })
  ]

  handle-SameEvent :
      (p : Platform) (m : Moment) (kind : Kind) (raw : Text) (payload : Json)
      → kind ≢ Kind.lock_last
      → SameEvent k n (handle p m kind k raw payload c).1
  unfolding handle handle_node_status handle_security handle_backup_status handle_backup_last
      handle_last_auth handle_guest_status
  handle-SameEvent p m Kind.legacy_status raw payload ne = legacy-SameEvent m raw
  handle-SameEvent p m Kind.status raw payload ne = word_handler-SameEvent _ _ _ refl refl
  handle-SameEvent p m Kind.state raw payload ne = state-SameEvent payload
  handle-SameEvent p m Kind.health raw payload ne = health-SameEvent p payload
  handle-SameEvent p m Kind.lock_last raw payload ne = absurd (ne refl)
  handle-SameEvent p m Kind.security raw payload ne = word_handler-SameEvent _ _ _ refl refl
  handle-SameEvent p m Kind.backup_status raw payload ne = word_handler-SameEvent _ _ _ refl refl
  handle-SameEvent p m Kind.backup_last raw payload ne =
      field_handler-SameEvent _ _ (λ a. refl) (λ a. refl)
  handle-SameEvent p m Kind.last_auth raw payload ne =
      field_handler-SameEvent _ _ (λ a. refl) (λ a. refl)
  handle-SameEvent p m Kind.guest_status raw payload ne =
      field_handler-SameEvent _ _ (λ a. refl) (λ a. refl)
  handle-SameEvent p m Kind.unhandled raw payload ne = unchanged

-- A message that is not a lock event of the node.
abbrev pub IsOther : Text → Moment × HomeKeyMessage → Type 0
IsOther k (m, msg) =
    (text_eq (node_of msg.node_id) k ≡ false) ⊎ (kind_of_message msg ≢ Kind.lock_last)

dispatch_here :
    (p : Platform) (m : Moment) (msg : HomeKeyMessage) (n : Node) (c : Coordinator)
    → lookup (node_of msg.node_id) c.nodes ≡ some n
    → kind_of_message msg ≢ Kind.lock_last
    → SameEvent (node_of msg.node_id) n (dispatch p m msg c).1
unfolding dispatch
dispatch_here p m msg n c there other = elim (Result-cases (decode p msg.subtopic msg.payload)) [
  | inr (e, failed) ↦ rw failed (unchanged (node_of msg.node_id) n c there)
  | inl (payload, decoded) ↦
      let k = node_of msg.node_id in
      let kind = kind_of_message msg in
      let s = handle-SameEvent k n c there p m kind msg.payload payload other in
      let (same, _) = finish-nodes kind (handle p m kind k msg.payload payload c) in
      rw decoded (record { node = s.node; found = rw same s.found; event = s.event; mark = s.mark })
]

dispatch_elsewhere :
    (p : Platform) (m : Moment) (msg : HomeKeyMessage) (k : Text) (n : Node) (c : Coordinator)
    → lookup k c.nodes ≡ some n
    → text_eq (node_of msg.node_id) k ≡ false
    → SameEvent k n (dispatch p m msg c).1
dispatch_elsewhere p m msg k n c there elsewhere =
    let (same, _) = dispatch_frame p m msg c k elsewhere in
    record { node = n; found = same ∙ there; event = refl; mark = refl }

pub dispatch-SameEvent :
    (p : Platform) (m : Moment) (msg : HomeKeyMessage) (k : Text) (n : Node) (c : Coordinator)
    → lookup k c.nodes ≡ some n
    → IsOther k (m, msg)
    → SameEvent k n (dispatch p m msg c).1
dispatch-SameEvent p m msg k n c there (inl elsewhere) =
    dispatch_elsewhere p m msg k n c there elsewhere
dispatch-SameEvent p m msg k n c there (inr other) =
    elim (Bool-cases (text_eq (node_of msg.node_id) k)) [
      | inr elsewhere ↦ dispatch_elsewhere p m msg k n c there elsewhere
      | inl here ↦
          let same : node_of msg.node_id ≡ k = (text_eq_iff (node_of msg.node_id) k).0 here in
          subst (λ j. SameEvent j n (dispatch p m msg c).1) same
            (dispatch_here p m msg n c (rw same there) other)
    ]
