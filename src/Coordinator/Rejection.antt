-- ===== src/Coordinator/Rejection.antt =====
-- What a rejected message leaves behind.
use homekey_household.Prelude.{
  Text, text_eq_iff, lookup-insert, Option-cases, truthy, lookup, Bool, true, false, some, ◌≡◌,
  refl, ◌∙◌, ◌⊎◌, inl, inr, arith, Bool-cases, if◌then◌else◌,
}
use homekey_household.Models.Json.{Json}
use homekey_household.Models.Errors.{Error, Result, ok, raise}
use homekey_household.Models.Node.{Node, new_node}
use homekey_household.Mqtt.Inbound.{HomeKeyMessage}
use homekey_household.Coordinator.Store.{Platform, Moment, Coordinator, ensure_node}
use homekey_household.Coordinator.Handlers.{
  Outcome, with_value, handle_node_status, handle_legacy_status, handle_security,
  handle_backup_status, handle_state, handle_health, handle_lock_last, handle_backup_last,
  handle_last_auth, handle_guest_status,
}
use homekey_household.Coordinator.Dispatch.{
  Kind, kind_of, handle, finish, dispatch, decode, node_of,
}
use homekey_household.Coordinator.Effects.{Result-cases}

-- The two branches that register the node before they check the payload.
unfoldable pub registers_first : Kind → Bool
registers_first Kind.health = true
registers_first Kind.lock_last = true
registers_first _ = false

-- The state that a rejection leaves: for those two, the node is registered.
unfoldable pub after_rejection : Kind → Text → Coordinator → Coordinator
unfolding registers_first
after_rejection k node_id c = if registers_first k then ensure_node node_id c else c

with_value_raise {ℓ} :
    {A : Type ℓ} (r : Result A) (c : Coordinator) (f : A → Coordinator) (e : Error)
    → (with_value r c f).0 ≡ raise e
    → (with_value r c f).1 ≡ c
with_value_raise (raise e') c f e h = refl
with_value_raise (ok a) c f e h = absurd (cc)

handle_raise :
    (p : Platform) (m : Moment) (k : Kind) (node_id raw : Text) (payload : Json) (c : Coordinator)
    (e : Error)
    → (handle p m k node_id raw payload c).0 ≡ raise e
    → (handle p m k node_id raw payload c).1 ≡ after_rejection k node_id c
unfolding handle after_rejection handle_node_status handle_legacy_status handle_security
    handle_backup_status handle_state handle_health handle_lock_last handle_backup_last
    handle_last_auth handle_guest_status
handle_raise p m Kind.legacy_status node_id raw payload c e h = ground arith
handle_raise p m Kind.status node_id raw payload c e h = ground arith
handle_raise p m Kind.security node_id raw payload c e h = ground arith
handle_raise p m Kind.backup_status node_id raw payload c e h = ground arith
handle_raise p m Kind.unhandled node_id raw payload c e h = absurd (cc)
handle_raise p m _ node_id raw payload c e h = with_value_raise _ _ _ e h

-- finish keeps what a handler that raised has left
finish_raise :
    (k : Kind) (o : Outcome) (e : Error)
    → (finish k o).0 ≡ raise e
    → (o.0 ≡ raise e) × ((finish k o).1 ≡ o.1)
unfolding finish
finish_raise Kind.unhandled o e h = (h, refl)
finish_raise Kind.status (ok u, c) e h = absurd (cc)
finish_raise _ (raise e', c) e h = (h, refl)
finish_raise _ (ok u, c) e h = absurd (cc)

-- The state after a rejected message: untouched where the payload is no JSON.
unfoldable pub left_by_rejection : Platform → HomeKeyMessage → Coordinator → Coordinator
unfolding after_rejection
left_by_rejection p msg c = elim (decode p msg.subtopic msg.payload) [
  | raise e ↦ c
  | ok payload ↦
      after_rejection (kind_of msg.subtopic (truthy (node_of msg.node_id))) (node_of msg.node_id) c
]

-- A message that is rejected changes nothing at all, unless its subtopic is `health` or `lock/last`
-- and its payload was JSON: then the one change is that the node is registered.
pub dispatch_raise :
    (p : Platform) (m : Moment) (msg : HomeKeyMessage) (c : Coordinator) (e : Error)
    → (dispatch p m msg c).0 ≡ raise e
    → (dispatch p m msg c).1 ≡ left_by_rejection p msg c
unfolding dispatch left_by_rejection
dispatch_raise p m msg c e h = elim (Result-cases (decode p msg.subtopic msg.payload)) [
  | inr (x, failed) ↦ rw (failed, dispatch, left_by_rejection)
  | inl (payload, decoded) ↦
      let k = kind_of msg.subtopic (truthy (node_of msg.node_id)) in
      let o = handle p m k (node_of msg.node_id) msg.payload payload c in
      let (raised, kept) = finish_raise k o e (rw decoded at h) in
      rw (decoded, left_by_rejection) (kept ∙ handle_raise p m k _ msg.payload payload c e raised)
]

-- Every node of `c` stands unchanged in `c'`, which can have blank nodes besides; and nothing was
-- shown, pooled, logged or attached.
pub record Preserves (c c' : Coordinator) : Type 0 where
  pub old : (k : Text) (n : Node) → lookup k c.nodes ≡ some n → lookup k c'.nodes ≡ some n
  pub new :
      (k : Text) (n : Node)
      → lookup k c'.nodes ≡ some n
      → (lookup k c.nodes ≡ some n) ⊎ (n ≡ new_node k c.household_id)
  pub household : c'.household_id ≡ c.household_id
  pub pool : c'.pool ≡ c.pool
  pub updates : c'.updates ≡ c.updates
  pub logbook : c'.logbook ≡ c.logbook
  pub contexts : c'.pending_contexts ≡ c.pending_contexts

Preserves-refl : (c : Coordinator) → Preserves c c
Preserves-refl c = record {
  old = λ k n h. h;
  new = λ k n h. inl h;
  household = refl;
  pool = refl;
  updates = refl;
  logbook = refl;
  contexts = refl;
}

Preserves-ensure_node : (k : Text) (c : Coordinator) → Preserves c (ensure_node k c)
unfolding ensure_node
Preserves-ensure_node k c = elim (Option-cases (lookup k c.nodes)) [
  | inr (n, found) ↦ rw (found, ensure_node) (Preserves-refl c)
  | inl absent ↦
      rw (absent, ensure_node)
        (record {
          old = λ j n h.
              ground
                (arith, lookup-insert k j (new_node k c.household_id) c.nodes, text_eq_iff k j);
          new = λ j n h.
              ground
                (arith, lookup-insert k j (new_node k c.household_id) c.nodes, text_eq_iff k j);
          household = refl;
          pool = refl;
          updates = refl;
          logbook = refl;
          contexts = refl;
        })
]

-- A rejected message preserves the valid state before it: no known node changes, a node that appears
-- is blank, and nothing is shown to the entities, pooled, logged or attached.
pub rejected-Preserves :
    (p : Platform) (m : Moment) (msg : HomeKeyMessage) (c : Coordinator) (e : Error)
    → (dispatch p m msg c).0 ≡ raise e
    → Preserves c (dispatch p m msg c).1
unfolding left_by_rejection after_rejection
rejected-Preserves p m msg c e h =
    rw (dispatch_raise p m msg c e h) (elim (Result-cases (decode p msg.subtopic msg.payload)) [
      | inr (x, failed) ↦ rw (failed, left_by_rejection) (Preserves-refl c)
      | inl (payload, decoded) ↦
          let k = kind_of msg.subtopic (truthy (node_of msg.node_id)) in
          elim (Bool-cases (registers_first k)) [
            | inl first ↦
                rw (decoded, left_by_rejection, first)
                  (Preserves-ensure_node (node_of msg.node_id) c)
            | inr later ↦ rw (decoded, left_by_rejection, later) (Preserves-refl c)
          ]
    ])
