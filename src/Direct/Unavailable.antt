-- ===== src/Direct/Unavailable.antt =====
-- direct.py, `DirectPoller`: the entities of a node that does not answer are unavailable.
use homekey_household.Prelude.{
  Text, text_eq, text_eq_self, truthy, member, strip, lstrip, is_space, lower, lower_code, true,
  false, some, List, ◌∷◌, All, lookup, lookup-insert_self, ◌≡◌, refl, ◌∙◌, ap,
}
use homekey_household.Models.Node.{Node, available}
use homekey_household.Coordinator.Store.{
  Platform, Moment, Coordinator, put_node, ensured, ensure_node, pool_state,
}
use homekey_household.Coordinator.Handlers.{handle_node_status}
use homekey_household.Coordinator.Dispatch.{
  dispatch, handle, finish, decode, kind_of, handle_message, publish_update,
}
use homekey_household.Models.Values.{Writer}
use homekey_household.Direct.Poller.{Poller, Poll, run_polls}
use homekey_household.Direct.Offline.{IsFailed, offline_message, third_failure_offline}

module _ (p : Platform) (w : Writer) where
  offline_node : Moment → Text → Coordinator → Node
  offline_node m k c = record (ensured k c) { online = false; last_seen = some m.now_iso }

  -- The message is handled by the status handler, and the update shows the node offline.
  offline_handled :
      (m : Moment) (q : Poller) (k : Text)
      → q.coordinator.household_id ≡ q.household_id
      → truthy k ≡ true
      → handle_message p m (offline_message p w q k) q.coordinator
        ≡ publish_update (put_node k (offline_node m k q.coordinator) (ensure_node k q.coordinator))
  unfolding handle_message dispatch handle finish decode kind_of handle_node_status text_eq member
      strip lstrip is_space lower lower_code offline_node
  offline_handled m q k ours named = rw (ours, text_eq_self q.household_id, named) refl

  -- For a poller that knows its node, counts no failures and feeds a coordinator of its household:
  -- after three failed polls in a row, and any further ones, the node is there and is unavailable.
  pub third_failure_unavailable :
      (a b c : Poll) (rest : List Poll) (q : Poller) (node_id : Text)
      → All (IsFailed p w) (a ∷ b ∷ c ∷ rest)
      → q.failures ≡ 0
      → q.node_id ≡ some node_id
      → truthy node_id ≡ true
      → q.coordinator.household_id ≡ q.household_id
      → (n : Node) × (lookup node_id (run_polls p w (a ∷ b ∷ c ∷ rest) q).coordinator.nodes
          ≡ some n)
        × (available n ≡ false)
  unfolding publish_update pool_state available offline_node
  third_failure_unavailable a b c rest q k fs none_yet known named ours =
      let m = c.times 0 in
      (
        offline_node m k q.coordinator,
        ap (λ x. lookup k x.nodes)
              (third_failure_offline p w a b c rest q k fs none_yet known named
                ∙ offline_handled m q k ours named)
            ∙ lookup-insert_self k _ (ensure_node k q.coordinator).nodes,
        refl,
      )
