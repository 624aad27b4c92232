-- ===== src/Coordinator/Handlers.antt =====
-- coordinator.py: the handlers of `_dispatch`, one for each subtopic. A handler gives its result and
-- the state that it left, also where it raised.
use homekey_household.Prelude.{
  Text, codes, text_eq, member, strip, lower, lookup, Bool, true, false, Option, none, some, List,
  [], ◌∷◌, ℤ, if◌then◌else◌,
}
use homekey_household.Const.Words.{security_states, backup_outcomes}
use homekey_household.Models.Json.{Json}
use homekey_household.Models.Errors.{Result, ok, raise, unexpected_payload, unknown_value}
use homekey_household.Models.Health
use homekey_household.Models.Health.{NodeHealth}
use homekey_household.Models.Records.{
  LockChange, backup_from_dict, auth_from_dict, change_from_dict,
}
use homekey_household.Models.Guest
use homekey_household.Models.Guest.{GuestState}
use homekey_household.Models.Node.{Node, from_state}
use homekey_household.Coordinator.Store.{
  Platform, Moment, Coordinator, put_node, ensured, ensure_node, merge_node,
}
use homekey_household.Coordinator.Attribution.{attribute_lock_event, attribute_lock_change}

abbrev pub Outcome : Type 0
Outcome = Result (Unit {0}) × Coordinator

abbrev pub presence_words : List Text
presence_words = codes "online" ∷ codes "offline" ∷ []

-- The handler goes on from a checked value, or leaves the state as it is.
abbrev pub with_value {ℓ} : {A : Type ℓ} → Result A → Coordinator → (A → Coordinator) → Outcome
with_value (raise e) c f = (raise e, c)
with_value (ok a) c f = (ok tt, f a)

module _ (m : Moment) where
  -- `_handle_node_status`
  unfoldable pub handle_node_status : Text → Text → Coordinator → Outcome
  handle_node_status node_id payload c =
      let value = lower (strip payload) in
      if member value presence_words
      then (
        ok tt,
        put_node node_id
            (record (ensured node_id c) {
              online = text_eq value (codes "online");
              last_seen = some m.now_iso;
            })
            (ensure_node node_id c),
      )
      else (raise (unexpected_payload (codes "status")), c)

  -- The node that the will of the broker connection tells of.
  unfoldable pub with_presence : Bool → Node → Node
  with_presence true n = record n { lwt_online = some true; last_seen = some m.now_iso }
  with_presence false n = record n { lwt_online = some false }

  -- `_handle_legacy_status`: an unknown node stays unknown.
  unfoldable pub handle_legacy_status : Text → Text → Coordinator → Outcome
  unfolding with_presence
  handle_legacy_status node_id payload c =
      let value = lower (strip payload) in
      if member value presence_words
      then (
        ok tt,
        elim (lookup node_id c.nodes) [
          | none ↦ c
          | some n ↦ put_node node_id (with_presence (text_eq value (codes "online")) n) c
        ],
      )
      else (raise (unexpected_payload (codes "legacy status")), c)

-- `_handle_security`: the case of the word matters.
unfoldable pub handle_security : Text → Text → Coordinator → Outcome
handle_security node_id payload c =
    let value = strip payload in
    if member value security_states
    then (
      ok tt,
      put_node node_id (record (ensured node_id c) { security = some value })
          (ensure_node node_id c),
    )
    else (raise (unknown_value (codes "security")), c)

-- `_handle_backup_status`
unfoldable pub handle_backup_status : Text → Text → Coordinator → Outcome
handle_backup_status node_id payload c =
    let value = lower (strip payload) in
    if member value backup_outcomes
    then (
      ok tt,
      put_node node_id (record (ensured node_id c) { backup_status = some value })
          (ensure_node node_id c),
    )
    else (raise (unknown_value (codes "backup/status")), c)

-- The `TOPIC_STATE` branch: the payload is checked before any node is touched.
unfoldable pub handle_state : Text → Json → Coordinator → Outcome
handle_state node_id payload c =
    with_value (from_state c.household_id node_id payload) c (λ incoming. merge_node incoming c)

-- `node.health.lock_current if node.health else None`
abbrev pub previous_current : Option NodeHealth → Option ℤ
previous_current none = none
previous_current (some h) = h.lock_current

-- What the `TOPIC_HEALTH` branch does with the checked snapshot, in the state where the node exists.
unfoldable pub store_health : Platform → Text → Node → NodeHealth → Coordinator → Coordinator
store_health p node_id n health c =
    let n' = record n { health = some health; lock_change_is_fresh = false } in
    attribute_lock_change p n' (previous_current n.health) health (put_node node_id n' c)

-- The `TOPIC_HEALTH` branch: the node is registered before the payload is checked.
unfoldable pub handle_health : Platform → Text → Json → Coordinator → Outcome
unfolding store_health
handle_health p node_id payload c =
    with_value (Health.from_dict payload c.household_id node_id) (ensure_node node_id c)
      (λ health. store_health p node_id (ensured node_id c) health (ensure_node node_id c))

unfoldable pub store_change :
    Platform → Moment → Text → Node → LockChange → Coordinator → Coordinator
store_change p m node_id n change c =
    let n' = record n { lock_change = some change; lock_change_is_fresh = true } in
    attribute_lock_event p m node_id n' change (put_node node_id n' c)

-- The `TOPIC_LOCK_LAST` branch: the node is registered before the payload is checked.
unfoldable pub handle_lock_last : Platform → Moment → Text → Json → Coordinator → Outcome
unfolding store_change
handle_lock_last p m node_id payload c =
    with_value (change_from_dict p.clock payload c.household_id node_id) (ensure_node node_id c)
      (λ change. store_change p m node_id (ensured node_id c) change (ensure_node node_id c))

-- The branches that assign one field: the payload is checked before the node is registered, since
-- the right side of an assignment is computed first.
unfoldable pub handle_backup_last : Platform → Text → Json → Coordinator → Outcome
handle_backup_last p node_id payload c =
    with_value (backup_from_dict p.clock payload c.household_id node_id) c (λ b.
      put_node node_id (record (ensured node_id c) { backup = some b }) (ensure_node node_id c))

unfoldable pub handle_last_auth : Platform → Text → Json → Coordinator → Outcome
handle_last_auth p node_id payload c =
    with_value (auth_from_dict p.clock payload c.household_id node_id) c (λ a.
      put_node node_id (record (ensured node_id c) { last_auth = some a }) (ensure_node node_id c))

unfoldable pub handle_guest_status : Text → Json → Coordinator → Outcome
handle_guest_status node_id payload c =
    with_value (Guest.from_dict payload) c (λ g.
      put_node node_id (record (ensured node_id c) { guest = some g }) (ensure_node node_id c))
