-- ===== src/Coordinator/Frame.antt =====
-- A message about one node leaves the other nodes, and the household, alone.
use homekey_household.Prelude.{
  Text, text_eq, truthy, member, strip, lower, lookup, lookup-insert_ne, Bool, true, false, ◌≡◌,
  refl, ◌∙◌, inl, inr, arith, Bool-cases, Option-cases, if◌then◌else◌,
}
use homekey_household.Models.Json.{Json}
use homekey_household.Models.Errors.{Error, Result, ok, raise}
use homekey_household.Models.Health
use homekey_household.Models.Node.{Node, from_state}
use homekey_household.Models.Records.{LockChange, change_from_dict}
use homekey_household.Mqtt.Inbound.{HomeKeyMessage}
use homekey_household.Coordinator.Store.{
  Platform, Moment, Coordinator, put_node, register, ensure_node, merge_node,
}
use homekey_household.Coordinator.Attribution.{attribute_lock_event, is_announced}
use homekey_household.Coordinator.Handlers.{
  Outcome, with_value, presence_words, handle_node_status, handle_legacy_status, handle_security,
  handle_backup_status, handle_state, handle_health, store_health, handle_lock_last, store_change,
  handle_backup_last, handle_last_auth, handle_guest_status,
}
use homekey_household.Coordinator.Dispatch.{
  Kind, kind_of, handle, finish, dispatch, decode, node_of,
}
use homekey_household.Coordinator.Effects.{
  Result-cases, SameRegistry, attribute_lock_change-SameRegistry, marked,
  announce_event-SameRegistry,
}

-- `c'` differs from `c` at the node `k` at most.
pub record Framed (k : Text) (c c' : Coordinator) : Type 0 where
  pub household : c'.household_id ≡ c.household_id
  pub others : (j : Text) → text_eq k j ≡ false → lookup j c'.nodes ≡ lookup j c.nodes
  pub updates : c'.updates ≡ c.updates

Framed-refl : (k : Text) (c : Coordinator) → Framed k c c
Framed-refl k c = record { household = refl; others = λ j ne. refl; updates = refl }

Framed-trans : (k : Text) (c d e : Coordinator) → Framed k c d → Framed k d e → Framed k c e
Framed-trans k c d e f g = record {
  household = g.household ∙ f.household;
  others = λ j ne. g.others j ne ∙ f.others j ne;
  updates = g.updates ∙ f.updates;
}

SameRegistry-Framed : (k : Text) (c d : Coordinator) → SameRegistry c d → Framed k c d
SameRegistry-Framed k c d s = record {
  household = s.household;
  others = λ j ne. rw s.nodes;
  updates = s.updates;
}

put_node-Framed : (k : Text) (n : Node) (c : Coordinator) → Framed k c (put_node k n c)
put_node-Framed k n c = record {
  household = refl;
  others = λ j ne. lookup-insert_ne k j n c.nodes ne;
  updates = refl;
}

add_node-Framed : (k : Text) (n : Node) (c : Coordinator) → Framed k c (register k (put_node k n c))
unfolding register
add_node-Framed k n c = assumption (put_node-Framed k n c)

ensure_node-Framed : (k : Text) (c : Coordinator) → Framed k c (ensure_node k c)
unfolding ensure_node
ensure_node-Framed k c = elim (Option-cases (lookup k c.nodes)) [
  | inl absent ↦ rw (absent, ensure_node) (add_node-Framed k _ c)
  | inr (n, found) ↦ rw (found, ensure_node) (Framed-refl k c)
]

put_ensured-Framed :
    (k : Text) (n : Node) (c : Coordinator) → Framed k c (put_node k n (ensure_node k c))
put_ensured-Framed k n c =
    Framed-trans k c (ensure_node k c) _ (ensure_node-Framed k c) (put_node-Framed k n _)

merge_node-Framed :
    (k : Text) (n : Node) (c : Coordinator) → n.node_id ≡ k → Framed k c (merge_node n c)
unfolding merge_node
merge_node-Framed k n c e = rw (← e) (elim (Option-cases (lookup n.node_id c.nodes)) [
  | inl absent ↦ rw (absent, merge_node) (add_node-Framed n.node_id n c)
  | inr (old, found) ↦ rw (found, merge_node) (put_node-Framed n.node_id _ c)
])

with_value-Framed {ℓ} :
    {A : Type ℓ} (k : Text) (c d : Coordinator) (r : Result A) (f : A → Coordinator)
    → Framed k c d
    → ((a : A) → r ≡ ok a → Framed k c (f a))
    → Framed k c (with_value r d f).1
with_value-Framed k c d (ok a) f g h = h a refl
with_value-Framed k c d (raise e) f g h = g

pub from_state-id :
    (household k : Text) (payload : Json) (n : Node)
    → from_state household k payload ≡ ok n
    → n.node_id ≡ k
unfolding from_state
from_state-id household k payload n e = ground arith

module _ (k : Text) (c : Coordinator) where
  word_handler-Framed :
      (good : Bool) (e : Error) (n : Node)
      → Framed k c (
          let o : Outcome =
            if good then (ok tt, put_node k n (ensure_node k c)) else (raise e, c) in
          o.1)
  word_handler-Framed true e n = put_ensured-Framed k n c
  word_handler-Framed false e n = Framed-refl k c

  field_handler-Framed {ℓ} :
      {A : Type ℓ} (r : Result A) (n : A → Node)
      → Framed k c (with_value r c (λ a. put_node k (n a) (ensure_node k c))).1
  field_handler-Framed r n =
      with_value-Framed k c c r _ (Framed-refl k c) (λ a _. put_ensured-Framed k (n a) c)

  legacy-Framed : (m : Moment) (raw : Text) → Framed k c (handle_legacy_status m k raw c).1
  unfolding handle_legacy_status
  legacy-Framed m raw = elim (Bool-cases (member (lower (strip raw)) presence_words)) [
    | inr bad ↦ rw bad (Framed-refl k c)
    | inl good ↦ elim (Option-cases (lookup k c.nodes)) [
      | inl absent ↦ rw (good, absent) (Framed-refl k c)
      | inr (n, found) ↦ rw (good, found) (put_node-Framed k _ c)
    ]
  ]

  event-Framed :
      (p : Platform) (m : Moment) (change : LockChange) (n : Node) (d : Coordinator)
      → Framed k d (attribute_lock_event p m k n change d)
  unfolding attribute_lock_event
  event-Framed p m change n d = elim (Bool-cases (is_announced p m n change)) [
    | inr kept ↦ rw kept (Framed-refl k d)
    | inl announced ↦ rw announced (
        Framed-trans k d (put_node k (marked n) d) _ (put_node-Framed k (marked n) d)
          (SameRegistry-Framed k _ _ (announce_event-SameRegistry p k n change d)))
  ]

  health-Framed : (p : Platform) (payload : Json) → Framed k c (handle_health p k payload c).1
  unfolding handle_health store_health
  health-Framed p payload =
      with_value-Framed k c (ensure_node k c) (Health.from_dict payload c.household_id k) _
        (ensure_node-Framed k c)
        (λ h _.
          Framed-trans k c _ _ (put_ensured-Framed k _ c)
            (SameRegistry-Framed k _ _ (attribute_lock_change-SameRegistry p _ _ h _)))

  lock_last-Framed :
      (p : Platform) (m : Moment) (payload : Json) → Framed k c (handle_lock_last p m k payload c).1
  unfolding handle_lock_last store_change
  lock_last-Framed p m payload =
      with_value-Framed k c (ensure_node k c) (change_from_dict p.clock payload c.household_id k) _
        (ensure_node-Framed k c)
        (λ change _. Framed-trans k c _ _ (put_ensured-Framed k _ c) (event-Framed p m change _ _))

  pub handle-Framed :
      (p : Platform) (m : Moment) (kind : Kind) (raw : Text) (payload : Json)
      → Framed k c (handle p m kind k raw payload c).1
  unfolding handle handle_node_status handle_security handle_backup_status handle_backup_last
      handle_last_auth handle_guest_status handle_state
  handle-Framed p m Kind.legacy_status raw payload = legacy-Framed m raw
  handle-Framed p m Kind.status raw payload = word_handler-Framed _ _ _
  handle-Framed p m Kind.state raw payload =
      with_value-Framed k c c (from_state c.household_id k payload) _ (Framed-refl k c)
        (λ n e. merge_node-Framed k n c (from_state-id c.household_id k payload n e))
  handle-Framed p m Kind.health raw payload = health-Framed p payload
  handle-Framed p m Kind.lock_last raw payload = lock_last-Framed p m payload
  handle-Framed p m Kind.security raw payload = word_handler-Framed _ _ _
  handle-Framed p m Kind.backup_status raw payload = word_handler-Framed _ _ _
  handle-Framed p m Kind.backup_last raw payload = field_handler-Framed _ _
  handle-Framed p m Kind.last_auth raw payload = field_handler-Framed _ _
  handle-Framed p m Kind.guest_status raw payload = field_handler-Framed _ _
  handle-Framed p m Kind.unhandled raw payload = Framed-refl k c

pub finish-nodes :
    (kind : Kind) (o : Outcome)
    → ((finish kind o).1.nodes ≡ o.1.nodes) × ((finish kind o).1.household_id ≡ o.1.household_id)
unfolding finish
finish-nodes Kind.unhandled o = (refl, refl)
finish-nodes Kind.status (ok u, c) = (refl, refl)
finish-nodes _ (raise e, c) = (refl, refl)
finish-nodes _ (ok u, c) = (refl, refl)

pub dispatch_household :
    (p : Platform) (m : Moment) (msg : HomeKeyMessage) (c : Coordinator)
    → (dispatch p m msg c).1.household_id ≡ c.household_id
unfolding dispatch
dispatch_household p m msg c = elim (Result-cases (decode p msg.subtopic msg.payload)) [
  | inr (e, failed) ↦ rw failed refl
  | inl (payload, decoded) ↦
      let k = node_of msg.node_id in
      let kind = kind_of msg.subtopic (truthy k) in
      let f = handle-Framed k c p m kind msg.payload payload in
      let (_, home) = finish-nodes kind (handle p m kind k msg.payload payload c) in
      rw decoded (home ∙ f.household)
]

-- Whatever the message and its outcome: a node other than the one that the message names keeps its
-- whole state, and the household keeps its id.
pub dispatch_frame :
    (p : Platform) (m : Moment) (msg : HomeKeyMessage) (c : Coordinator) (j : Text)
    → text_eq (node_of msg.node_id) j ≡ false
    → (lookup j (dispatch p m msg c).1.nodes ≡ lookup j c.nodes)
      × ((dispatch p m msg c).1.household_id ≡ c.household_id)
unfolding dispatch
dispatch_frame p m msg c j ne = elim (Result-cases (decode p msg.subtopic msg.payload)) [
  | inr (e, failed) ↦ rw failed (refl, refl)
  | inl (payload, decoded) ↦
      let k = node_of msg.node_id in
      let kind = kind_of msg.subtopic (truthy k) in
      let f = handle-Framed k c p m kind msg.payload payload in
      let (same, home) = finish-nodes kind (handle p m kind k msg.payload payload c) in
      rw decoded (rw same (f.others j ne), home ∙ f.household)
]
