-- ===== src/Coordinator/Invariant.antt =====
-- The registry stays well formed, whatever messages arrive.
use homekey_household.Prelude.{
  Text, text_eq, truthy, insert-insert, member, strip, lower, lookup, Bool, true, false, List, [],
  ◌∷◌, ◌≡◌, refl, inl, inr, arith, Bool-cases, Option-cases, if◌then◌else◌,
}
use homekey_household.Models.Json.{Json}
use homekey_household.Models.Errors.{Error, Result, ok, raise}
use homekey_household.Models.State
use homekey_household.Models.Health.{NodeHealth}
use homekey_household.Models.Health
use homekey_household.Models.Records.{LockChange, change_from_dict}
use homekey_household.Models.Node.{Node, from_state}
use homekey_household.Mqtt.Inbound.{HomeKeyMessage}
use homekey_household.Coordinator.Store.{
  Platform, Moment, Coordinator, put_node, ensured, ensure_node,
}
use homekey_household.Coordinator.Attribution.{attribute_lock_event, is_announced}
use homekey_household.Coordinator.Handlers.{
  Outcome, with_value, with_presence, presence_words, handle_node_status, handle_legacy_status,
  handle_security, handle_backup_status, handle_state, handle_health, store_health,
  handle_lock_last, store_change, handle_backup_last, handle_last_auth, handle_guest_status,
}
use homekey_household.Coordinator.Dispatch.{
  Kind, kind_of, handle, finish, dispatch, decode, handle_message, handle_all, node_of,
}
use homekey_household.Coordinator.Registry.{
  IsFiled, IsValid, put_node-IsValid, put_ensured-IsValid, ensured-IsFiled, ensure_node-IsValid,
  merge_node-IsValid,
}
use homekey_household.Coordinator.Effects.{
  Result-cases, SameRegistry, attribute_lock_change-SameRegistry, marked,
  announce_event-SameRegistry,
}

SameRegistry-IsValid : (c c' : Coordinator) → SameRegistry c c' → IsValid c → IsValid c'
SameRegistry-IsValid c c' s v = record {
  filed = λ k n e. rw s.household (v.filed k n (rw (← s.nodes) e));
  known = rw (s.known, s.nodes) v.known;
}

with_value-IsValid {ℓ} :
    {A : Type ℓ} (r : Result A) (c : Coordinator) (f : A → Coordinator)
    → IsValid c
    → ((a : A) → r ≡ ok a → IsValid (f a))
    → IsValid (with_value r c f).1
with_value-IsValid (ok a) c f v g = g a refl
with_value-IsValid (raise e) c f v g = v

-- The outcome of a handler that tests a word.
abbrev of_word : Bool → Error → Coordinator → Coordinator → Outcome
of_word good e c' c = if good then (ok tt, c') else (raise e, c)

-- The node of a checked `state` payload is the topic's, and has a name.
from_state-IsFiled :
    (household k : Text) (payload : Json) (n : Node)
    → truthy k ≡ true
    → from_state household k payload ≡ ok n
    → IsFiled household k n
unfolding from_state
from_state-IsFiled household k payload n t e =
    elim (Result-cases (State.from_dict payload household k)) [
      | inl (s, got) ↦ ground (arith, got, Bool-cases (truthy s.node_name))
      | inr (x, failed) ↦ ground (arith, failed)
    ]

module _ (k : Text) (c : Coordinator) (v : IsValid c) (t : truthy k ≡ true) where
  -- A handler that tests a word, and writes fields that do not identify the node.
  word_handler-IsValid :
      (good : Bool) (e : Error) (n : Node)
      → IsFiled c.household_id k n
      → IsValid (of_word good e (put_node k n (ensure_node k c)) c).1
  word_handler-IsValid true e n f = put_ensured-IsValid k n c v t f
  word_handler-IsValid false e n f = v

  -- A handler that checks a payload, and then writes such fields.
  field_handler-IsValid {ℓ} :
      {A : Type ℓ} (r : Result A) (n : A → Node)
      → ((a : A) → IsFiled c.household_id k (n a))
      → IsValid (with_value r c (λ a. put_node k (n a) (ensure_node k c))).1
  field_handler-IsValid r n f =
      with_value-IsValid r c _ v (λ a _. put_ensured-IsValid k (n a) c v t (f a))

  filed : IsFiled c.household_id k (ensured k c)
  filed = ensured-IsFiled k c v t

  legacy-IsValid : (m : Moment) (raw : Text) → IsValid (handle_legacy_status m k raw c).1
  unfolding handle_legacy_status with_presence
  legacy-IsValid m raw = elim (Bool-cases (member (lower (strip raw)) presence_words)) [
    | inr bad ↦ rw bad v
    | inl good ↦ elim (Option-cases (lookup k c.nodes)) [
      | inl absent ↦ rw (good, absent) v
      | inr (n, found) ↦
          let f = v.filed k n found in
          rw (good, found)
            (put_node-IsValid k n _ c v found (presence m (text_eq (lower (strip raw)) _) n f))
    ]
  ]
    where
      presence :
          (m : Moment) (b : Bool) (n : Node)
          → IsFiled c.household_id k n
          → IsFiled c.household_id k (with_presence m b n)
      presence m true n f = assumption f
      presence m false n f = assumption f

  state-IsValid : (payload : Json) → IsValid (handle_state k payload c).1
  unfolding handle_state
  state-IsValid payload =
      with_value-IsValid (from_state c.household_id k payload) c _ v
        (λ n e. merge_node-IsValid k n c v (from_state-IsFiled c.household_id k payload n t e))

  health-IsValid : (p : Platform) (payload : Json) → IsValid (handle_health p k payload c).1
  unfolding handle_health store_health
  health-IsValid p payload =
      with_value-IsValid (Health.from_dict payload c.household_id k) (ensure_node k c) _
        (ensure_node-IsValid k c v t)
        (λ h _.
          SameRegistry-IsValid _ _ (attribute_lock_change-SameRegistry p _ _ h _)
            (put_ensured-IsValid k _ c v t (assumption filed)))

  event-IsValid :
      (p : Platform) (m : Moment) (change : LockChange) (n : Node)
      → IsFiled c.household_id k n
      → IsValid (attribute_lock_event p m k n change (put_node k n (ensure_node k c)))
  unfolding attribute_lock_event marked
  event-IsValid p m change n f = elim (Bool-cases (is_announced p m n change)) [
    | inr kept ↦ rw kept (put_ensured-IsValid k n c v t f)
    | inl announced ↦ rw announced (
        SameRegistry-IsValid _ _
          (announce_event-SameRegistry p k n change (put_node k n (ensure_node k c)))
          (rw insert-insert (put_ensured-IsValid k (marked n) c v t (assumption f))))
  ]

  lock_last-IsValid :
      (p : Platform) (m : Moment) (payload : Json) → IsValid (handle_lock_last p m k payload c).1
  unfolding handle_lock_last store_change
  lock_last-IsValid p m payload =
      with_value-IsValid (change_from_dict p.clock payload c.household_id k) (ensure_node k c) _
        (ensure_node-IsValid k c v t) (λ change _. event-IsValid p m change _ (assumption filed))

  handle-IsValid :
      (p : Platform) (m : Moment) (kind : Kind) (raw : Text) (payload : Json)
      → IsValid (handle p m kind k raw payload c).1
  unfolding handle handle_node_status handle_security handle_backup_status handle_backup_last
      handle_last_auth handle_guest_status
  handle-IsValid p m Kind.legacy_status raw payload = legacy-IsValid m raw
  handle-IsValid p m Kind.status raw payload = word_handler-IsValid _ _ _ (assumption filed)
  handle-IsValid p m Kind.state raw payload = state-IsValid payload
  handle-IsValid p m Kind.health raw payload = health-IsValid p payload
  handle-IsValid p m Kind.lock_last raw payload = lock_last-IsValid p m payload
  handle-IsValid p m Kind.security raw payload = word_handler-IsValid _ _ _ (assumption filed)
  handle-IsValid p m Kind.backup_status raw payload = word_handler-IsValid _ _ _ (assumption filed)
  handle-IsValid p m Kind.backup_last raw payload =
      field_handler-IsValid _ _ (λ b. assumption filed)
  handle-IsValid p m Kind.last_auth raw payload = field_handler-IsValid _ _ (λ b. assumption filed)
  handle-IsValid p m Kind.guest_status raw payload =
      field_handler-IsValid _ _ (λ b. assumption filed)
  handle-IsValid p m Kind.unhandled raw payload = v

-- Publishing an update touches no node; a kind that needs a node id comes with one.
finish-IsValid : (kind : Kind) (o : Outcome) → IsValid o.1 → IsValid (finish kind o).1
unfolding finish
finish-IsValid Kind.unhandled o v = v
finish-IsValid Kind.status (ok u, c) v = assumption v
finish-IsValid _ (raise e, c) v = v
finish-IsValid _ (ok u, c) v = assumption v

-- Every message leaves a well-formed registry well formed: each node is filed under its own id in
-- its own household, has a name, and the known ids are the filed ones, in the order of discovery.
pub dispatch-IsValid :
    (p : Platform) (m : Moment) (msg : HomeKeyMessage) (c : Coordinator)
    → IsValid c
    → IsValid (dispatch p m msg c).1
unfolding dispatch
dispatch-IsValid p m msg c v = elim (Result-cases (decode p msg.subtopic msg.payload)) [
  | inr (e, failed) ↦ rw (failed) v
  | inl (payload, decoded) ↦ elim (Bool-cases (truthy (node_of msg.node_id))) [
    | inl node ↦
        rw (decoded, node)
          (finish-IsValid (kind_of msg.subtopic true) _
            (handle-IsValid (node_of msg.node_id) c v node p m _ msg.payload payload))
    | inr none' ↦ rw (decoded, none') v
  ]
]

pub handle_message-IsValid :
    (p : Platform) (m : Moment) (msg : HomeKeyMessage) (c : Coordinator)
    → IsValid c
    → IsValid (handle_message p m msg c)
unfolding handle_message
handle_message-IsValid p m msg c v = elim (Bool-cases (text_eq msg.household_id c.household_id)) [
  | inl ours ↦ rw ours (dispatch-IsValid p m msg c v)
  | inr other ↦ rw other v
]

-- From a well-formed state, any sequence of messages, in any order, leads to a well-formed state.
pub handle_all-IsValid :
    (p : Platform) (msgs : List (Moment × HomeKeyMessage)) (c : Coordinator)
    → IsValid c
    → IsValid (handle_all p msgs c)
unfolding handle_all
handle_all-IsValid p [] c v = v
handle_all-IsValid p ((m, msg) ∷ rest) c v =
    handle_all-IsValid p rest (handle_message p m msg c) (handle_message-IsValid p m msg c v)
