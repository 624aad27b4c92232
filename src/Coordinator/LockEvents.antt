-- ===== src/Coordinator/LockEvents.antt =====
-- coordinator.py and models.py: the state that the entity shows after a lock event or a snapshot.
use homekey_household.Prelude.{
  Text, lookup, lookup-insert_self, true, false, none, some, ◌≡◌, refl, inl, inr, arith, Bool-cases,
}
use homekey_household.Const.Words.{LockState, lock_state_of}
use homekey_household.Models.Json.{Json}
use homekey_household.Models.Errors.{ok}
use homekey_household.Models.Health
use homekey_household.Models.Health.{NodeHealth, lock_current_state}
use homekey_household.Models.Records.{LockChange, change_from_dict}
use homekey_household.Models.Node.{Node, lock_state}
use homekey_household.Coordinator.Store.{
  Platform, Moment, Coordinator, put_node, ensured, ensure_node,
}
use homekey_household.Coordinator.Attribution.{attribute_lock_event, is_announced}
use homekey_household.Coordinator.Handlers.{
  handle_health, store_health, handle_lock_last, store_change,
}
use homekey_household.Coordinator.Effects.{
  attribute_lock_change-SameRegistry, marked, announce_event-SameRegistry,
}

-- The state that a snapshot reports.
abbrev pub snapshot_of : NodeHealth → LockState
snapshot_of h = elim h.lock_current [ none ↦ LockState.unknown | some n ↦ lock_state_of n ]

-- After an accepted lock event the node shows the state that the event reports, whatever the last
-- snapshot said, and also where there was no snapshot yet.
pub lock_last_shows :
    (p : Platform) (m : Moment) (k : Text) (payload : Json) (c : Coordinator) (change : LockChange)
    → change_from_dict p.clock payload c.household_id k ≡ ok change
    → (n : Node) × (lookup k (handle_lock_last p m k payload c).1.nodes ≡ some n)
      × (lock_state n ≡ lock_state_of change.current)
      × (n.health ≡ (ensured k c).health)
unfolding handle_lock_last store_change lock_state attribute_lock_event marked
lock_last_shows p m k payload c change h =
    let n = record (ensured k c) { lock_change = some change; lock_change_is_fresh = true } in
    let d = put_node k n (ensure_node k c) in
    elim (Bool-cases (is_announced p m n change)) [
      | inr kept ↦ (
        n,
        rw (h, handle_lock_last, kept) (lookup-insert_self k n (ensure_node k c).nodes),
        refl,
        refl,
      )
      | inl announced ↦ (
        marked n,
        rw (h, announced)
            (rw ((announce_event-SameRegistry p k n change d).nodes)
              (lookup-insert_self k (marked n) d.nodes)),
        refl,
        refl,
      )
    ]

-- After an accepted snapshot the node shows the state of the snapshot, also where a lock event had
-- the word before: a snapshot without a lock state shows `unknown`.
pub health_shows :
    (p : Platform) (k : Text) (payload : Json) (c : Coordinator) (health : NodeHealth)
    → Health.from_dict payload c.household_id k ≡ ok health
    → (n : Node) × (lookup k (handle_health p k payload c).1.nodes ≡ some n)
      × (lock_state n ≡ snapshot_of health)
      × (n.lock_change ≡ (ensured k c).lock_change)
unfolding handle_health store_health lock_state lock_current_state
health_shows p k payload c health h =
    let n = record (ensured k c) { health = some health; lock_change_is_fresh = false } in
    let d = put_node k n (ensure_node k c) in
    (
      n,
      rw h (
          rw ((attribute_lock_change-SameRegistry p n _ health d).nodes)
            (lookup-insert_self k n (ensure_node k c).nodes)),
      ground arith,
      refl,
    )
