-- ===== src/Coordinator/Effects.antt =====
-- What an attribution changes, and the case split on a checked value.
use homekey_household.Prelude.{Text, Option, ℤ, ◌≡◌, refl, ◌⊎◌, inl, inr, arith}
use homekey_household.Models.Errors.{Error, Result, ok, raise}
use homekey_household.Models.Health.{NodeHealth}
use homekey_household.Models.Records.{LockChange}
use homekey_household.Models.Node.{Node, lock_change_key}
use homekey_household.Coordinator.Store.{Platform, Coordinator, put_node}
use homekey_household.Coordinator.Attribution.{attribute_lock_change, announce_event}

-- A result, and what it was.
pub Result-cases {ℓ} :
    {A : Type ℓ} (r : Result A) → ((a : A) × (r ≡ ok a)) ⊎ ((e : Error) × (r ≡ raise e))
Result-cases (ok a) = inl (a, refl)
Result-cases (raise e) = inr (e, refl)

-- Two states with one registry, pool and history of updates.
pub record SameRegistry (c c' : Coordinator) : Type 0 where
  pub household : c'.household_id ≡ c.household_id
  pub nodes : c'.nodes ≡ c.nodes
  pub known : c'.known_node_ids ≡ c.known_node_ids
  pub pool : c'.pool ≡ c.pool
  pub updates : c'.updates ≡ c.updates

-- Attributing a snapshot's change writes no node.
pub attribute_lock_change-SameRegistry :
    (p : Platform) (n : Node) (prev : Option ℤ) (h : NodeHealth) (c : Coordinator)
    → SameRegistry c (attribute_lock_change p n prev h c)
unfolding attribute_lock_change
attribute_lock_change-SameRegistry p n prev h c = ground arith

-- The node with the mark of the event that was announced.
unfoldable pub marked : Node → Node
unfolding lock_change_key
marked n = record n { attributed_lock_change = lock_change_key n }

-- Announcing an event writes the mark into its node, and nothing else.
pub announce_event-SameRegistry :
    (p : Platform) (k : Text) (n : Node) (change : LockChange) (c : Coordinator)
    → SameRegistry (put_node k (marked n) c) (announce_event p k n change c)
unfolding announce_event marked
announce_event-SameRegistry p k n change c = ground arith
