-- ===== src/Coordinator/Redelivery.antt =====
-- A retained lock event is delivered again on every connect: handling it again at once changes nothing.
use homekey_household.Prelude.{
  Text, text_eq_self, lookup, lookup-insert_self, insert_present, true, false, Option, none, some,
  int_eq_iff, ltb_ℤ, ◌≡◌, refl, ◌∙◌, ap, inl, inr, arith, Bool-cases,
}
use homekey_household.Models.Json.{Json}
use homekey_household.Models.Errors.{ok}
use homekey_household.Models.Records.{LockChange, change_from_dict}
use homekey_household.Models.Node.{
  Node, EventKey, event_key_eq, optional_text_eq, lock_change_key, key_of_change,
}
use homekey_household.Coordinator.Store.{
  Platform, Moment, Coordinator, put_node, ensured, ensure_node,
}
use homekey_household.Coordinator.Attribution.{
  attribute_lock_event, is_announced, announce_event, already_attributed, is_recent, recency_of,
}
use homekey_household.Coordinator.Handlers.{handle_lock_last, store_change}
use homekey_household.Coordinator.Effects.{Result-cases, marked, announce_event-SameRegistry}
use homekey_household.Coordinator.Registry.{lookup-ensure_node, household-ensure_node}

optional_text_eq_self : (o : Option Text) → optional_text_eq o o ≡ true
unfolding optional_text_eq
optional_text_eq_self none = refl
optional_text_eq_self (some s) = text_eq_self s

event_key_eq_self : (k : EventKey) → event_key_eq k k ≡ true
unfolding event_key_eq
event_key_eq_self k = ground (
  arith,
  optional_text_eq_self k.timestamp,
  int_eq_iff k.current k.current,
  text_eq_self k.source,
)

-- An event that is marked is not announced, at any time.
marked_not_announced :
    (p : Platform) (m : Moment) (n : Node) (change : LockChange)
    → n.lock_change ≡ some change
    → is_announced p m (marked n) change ≡ false
unfolding is_announced marked already_attributed lock_change_key
marked_not_announced p m n change e =
    ground (arith, event_key_eq_self (unfold key_of_change in key_of_change change))

-- What is not news at one time is not news later.
not_announced_later :
    (p : Platform) (m m' : Moment) (n : Node) (change : LockChange)
    → ltb_ℤ m'.now m.now ≡ false
    → is_announced p m n change ≡ false
    → is_announced p m' n change ≡ false
unfolding is_announced is_recent recency_of
not_announced_later p m m' n change later h = ground arith

pub attribute_quiet :
    (p : Platform) (m : Moment) (k : Text) (n : Node) (change : LockChange) (c : Coordinator)
    → is_announced p m n change ≡ false
    → attribute_lock_event p m k n change c ≡ c
unfolding attribute_lock_event
attribute_quiet p m k n change c h = rw h

put_node_present :
    (k : Text) (n : Node) (c : Coordinator) → lookup k c.nodes ≡ some n → put_node k n c ≡ c
put_node_present k n c found = ap (λ d. record c { nodes = d }) (insert_present k n c.nodes found)

-- The node that holds the event already, and is not to announce it, is stored as it is.
stored_again :
    (p : Platform) (m' : Moment) (k : Text) (n : Node) (change : LockChange) (c : Coordinator)
    → lookup k c.nodes ≡ some n
    → n.lock_change ≡ some change
    → n.lock_change_is_fresh ≡ true
    → is_announced p m' n change ≡ false
    → store_change p m' k n change c ≡ c
unfolding store_change
stored_again p m' k n change c found e fresh quiet =
    let same : record n { lock_change = some change; lock_change_is_fresh = true } ≡ n =
      ground arith in
    ap (λ x. attribute_lock_event p m' k x change (put_node k x c)) same
    ∙ (attribute_quiet p m' k n change (put_node k n c) quiet ∙ put_node_present k n c found)

-- A node that is there is the one that `_ensure_node` returns, and it registers nothing.
pub ensured_present :
    (k : Text) (n : Node) (c : Coordinator)
    → lookup k c.nodes ≡ some n
    → (ensured k c ≡ n) × (ensure_node k c ≡ c)
unfolding ensured ensure_node
ensured_present k n c found = ground arith

-- What the first delivery leaves: a node that holds the event and will not announce it again.
marked_event : (n : Node) → (marked n).lock_change ≡ n.lock_change
unfolding marked
marked_event n = refl

marked_fresh : (n : Node) → (marked n).lock_change_is_fresh ≡ n.lock_change_is_fresh
unfolding marked
marked_fresh n = refl

announced_found :
    (p : Platform) (m : Moment) (k : Text) (n : Node) (change : LockChange) (d : Coordinator)
    → is_announced p m n change ≡ true
    → lookup k (attribute_lock_event p m k n change d).nodes ≡ some (marked n)
unfolding attribute_lock_event
announced_found p m k n change d loud = rw loud (
    rw ((announce_event-SameRegistry p k n change d).nodes)
      (lookup-insert_self k (marked n) d.nodes))

household_stored :
    (p : Platform) (m : Moment) (k : Text) (n : Node) (change : LockChange) (c : Coordinator)
    → (store_change p m k n change c).household_id ≡ c.household_id
unfolding store_change attribute_lock_event announce_event
household_stored p m k n change c = ground arith

pub record Settled (p : Platform) (m' : Moment) (k : Text) (change : LockChange) (c : Coordinator)
    : Type 0 where
  pub node : Node
  pub found : lookup k c.nodes ≡ some node
  pub event : node.lock_change ≡ some change
  pub fresh : node.lock_change_is_fresh ≡ true
  pub quiet : is_announced p m' node change ≡ false

pub store_change-Settled :
    (p : Platform) (m m' : Moment) (k : Text) (n : Node) (change : LockChange) (c : Coordinator)
    → ltb_ℤ m'.now m.now ≡ false
    → Settled p m' k change (store_change p m k n change c)
unfolding store_change
store_change-Settled p m m' k n change c later =
    let n' : Node = record n { lock_change = some change; lock_change_is_fresh = true } in
    let d = put_node k n' c in
    elim (Bool-cases (is_announced p m n' change)) [
      | inr silent ↦ rw (attribute_quiet p m k n' change d silent) (record {
        node = n';
        found = lookup-insert_self k n' c.nodes;
        event = refl;
        fresh = refl;
        quiet = not_announced_later p m m' n' change later silent;
      })
      | inl loud ↦ record {
        node = marked n';
        found = announced_found p m k n' change d loud;
        event = marked_event n';
        fresh = marked_fresh n';
        quiet = marked_not_announced p m' n' change refl;
      }
    ]

Settled-again :
    (p : Platform) (m' : Moment) (k : Text) (change : LockChange) (c : Coordinator)
    → Settled p m' k change c
    → store_change p m' k (ensured k c) change (ensure_node k c) ≡ c
Settled-again p m' k change c s =
    let (same, kept) = ensured_present k s.node c s.found in
    rw (same, kept) (stored_again p m' k s.node change c s.found s.event s.fresh s.quiet)

-- To handle a lock event again, at the same time or later, is to do nothing: the outcome is that of
-- the first time, and the state is the one that the first time left, with no second entry in the
-- logbook; and a rejected one stays rejected. This is about the next message: after another event in
-- between, the first one is news again.
pub handle_lock_last_again :
    (p : Platform) (m m' : Moment) (k : Text) (payload : Json) (c : Coordinator)
    → ltb_ℤ m'.now m.now ≡ false
    → handle_lock_last p m' k payload (handle_lock_last p m k payload c).1
      ≡ handle_lock_last p m k payload c
unfolding handle_lock_last attribute_lock_event ensure_node
handle_lock_last_again p m m' k payload c later =
    let d = ensure_node k c in
    elim (Result-cases (change_from_dict p.clock payload c.household_id k)) [
      | inr (e, failed) ↦
          let (_, kept) = ensured_present k (ensured k c) d (lookup-ensure_node k c) in
          rw (failed, household-ensure_node, failed, kept)
      | inl (change, got) ↦
          let home = household_stored p m k (ensured k c) change d ∙ household-ensure_node k c in
          let s = store_change-Settled p m m' k (ensured k c) change d later in
          rw (got, home, got) (ap (λ x. (ok tt, x)) (Settled-again p m' k change _ s))
    ]
