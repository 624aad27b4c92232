-- ===== src/Coordinator/Publication.antt =====
-- What an accepted message shows to the entities and to the pool.
use homekey_household.Prelude.{
  Text, text_eq, truthy, lookup, some, List, [], ◌∷◌, ◌++◌, ◌≡◌, ◌≢◌, refl, ◌⊎◌, inl, inr,
  Bool-cases,
}
use homekey_household.Models.Errors.{ok, raise}
use homekey_household.Models.Node.{Node, new_node}
use homekey_household.Mqtt.Inbound.{HomeKeyMessage}
use homekey_household.Coordinator.Store.{Platform, Moment, Coordinator, Update, start, pooled_nodes}
use homekey_household.Coordinator.Handlers.{Outcome}
use homekey_household.Coordinator.Dispatch.{
  Kind, kind_of, handle, finish, dispatch, decode, handle_message, handle_all, node_of,
}
use homekey_household.Coordinator.Effects.{Result-cases}
use homekey_household.Coordinator.Frame.{handle-Framed}
use homekey_household.Coordinator.Registry.{IsValid}
use homekey_household.Coordinator.Invariant.{dispatch-IsValid}
use homekey_household.Coordinator.Rejection.{rejected-Preserves}

-- The state after an accepted message: pooled, shown once, and with no cause left over.
pub record IsPublished (c c' : Coordinator) : Type 0 where
  pub pool : c'.pool ≡ some c'.nodes
  pub contexts : c'.pending_contexts ≡ []
  pub shown : (u : Update) × (c'.updates ≡ c.updates ++ (u ∷ [])) × (u.nodes ≡ c'.nodes)

finish_ok :
    (k : Kind) (o : Outcome) (c : Coordinator)
    → (finish k o).0 ≡ ok tt
    → k ≢ Kind.unhandled
    → o.1.updates ≡ c.updates
    → IsPublished c (finish k o).1
unfolding finish
finish_ok Kind.unhandled o c h ne same = absurd (ne refl)
finish_ok Kind.status (ok u, d) c h ne same = record {
  pool = refl;
  contexts = refl;
  shown = (record { nodes = d.nodes; contexts = d.pending_contexts }, rw same, refl);
}
finish_ok _ (raise e, d) c h ne same = absurd (cc)
finish_ok _ (ok u, d) c h ne same = record {
  pool = refl;
  contexts = refl;
  shown = (record { nodes = d.nodes; contexts = d.pending_contexts }, rw same, refl);
}

abbrev pub kind_of_message : HomeKeyMessage → Kind
kind_of_message msg = kind_of msg.subtopic (truthy (node_of msg.node_id))

-- A message that is handled without an error is shown to the entities in exactly one update, which
-- carries the new nodes; the pool holds the same nodes, and no cause stays pending.
pub dispatch-IsPublished :
    (p : Platform) (m : Moment) (msg : HomeKeyMessage) (c : Coordinator)
    → (dispatch p m msg c).0 ≡ ok tt
    → kind_of_message msg ≢ Kind.unhandled
    → IsPublished c (dispatch p m msg c).1
unfolding dispatch
dispatch-IsPublished p m msg c h ne = elim (Result-cases (decode p msg.subtopic msg.payload)) [
  | inr (e, failed) ↦ absurd (cc (rw failed at h))
  | inl (payload, decoded) ↦
      let k = node_of msg.node_id in
      let kind = kind_of_message msg in
      let f = handle-Framed k c p m kind msg.payload payload in
      rw decoded
        (finish_ok kind (handle p m kind k msg.payload payload c) c (rw decoded at h) ne f.updates)
]

-- A coordinator that starts from the pool that a handled message left, in a state well formed before
-- it, has the same nodes, knows the same ids, and is well formed.
pub reload_keeps :
    (p : Platform) (m : Moment) (msg : HomeKeyMessage) (c : Coordinator)
    → IsValid c
    → (dispatch p m msg c).0 ≡ ok tt
    → kind_of_message msg ≢ Kind.unhandled
    → let c' = (dispatch p m msg c).1 in
      let d = start c'.household_id c'.pool c'.next_context in
      (d.nodes ≡ c'.nodes) × (d.known_node_ids ≡ c'.known_node_ids) × IsValid d
unfolding start
reload_keeps p m msg c v h ne =
    let s = dispatch-IsPublished p m msg c h ne in
    let v' = dispatch-IsValid p m msg c v in
    (
      rw s.pool,
      rw (s.pool, v'.known),
      record { filed = λ k n e. v'.filed k n (rw s.pool at e); known = refl },
    )

-- Every node of the state is in the pool as it is, or blank.
pub record Recoverable (c : Coordinator) : Type 0 where
  pub pooled :
      (k : Text) (n : Node)
      → lookup k c.nodes ≡ some n
      → (lookup k (pooled_nodes c.pool) ≡ some n) ⊎ (n ≡ new_node k c.household_id)

is_unhandled : (k : Kind) → (k ≡ Kind.unhandled) ⊎ (k ≢ Kind.unhandled)
is_unhandled Kind.unhandled = inl refl
is_unhandled Kind.status = inr (λ e. cc)
is_unhandled _ = inr (λ e. cc)

dispatch_unhandled :
    (p : Platform) (m : Moment) (msg : HomeKeyMessage) (c : Coordinator)
    → kind_of_message msg ≡ Kind.unhandled
    → (dispatch p m msg c).1 ≡ c
unfolding dispatch handle finish
dispatch_unhandled p m msg c e = elim (Result-cases (decode p msg.subtopic msg.payload)) [
  | inr (x, failed) ↦ rw failed
  | inl (payload, decoded) ↦ rw (decoded, e)
]

dispatch-Recoverable :
    (p : Platform) (m : Moment) (msg : HomeKeyMessage) (c : Coordinator)
    → Recoverable c
    → Recoverable (dispatch p m msg c).1
dispatch-Recoverable p m msg c r = elim (is_unhandled (kind_of_message msg)) [
  | inl e ↦ rw (dispatch_unhandled p m msg c e) r
  | inr ne ↦ elim (Result-cases (dispatch p m msg c).0) [
    | inl (tt', h) ↦
        let s = dispatch-IsPublished p m msg c h ne in
        record { pooled = λ k n found. inl (rw s.pool found) }
    | inr (e, h) ↦
        let s = rejected-Preserves p m msg c e h in
        record {
          pooled = λ k n found. elim (s.new k n found) [
            | inr blank ↦ inr (rw s.household blank)
            | inl known ↦ rw (s.household, s.pool) (r.pooled k n known)
          ];
        }
  ]
]

-- From a state in which each node is pooled as it stands or is blank, after any sequence of messages,
-- rejected ones included, each node is pooled as it stands or is blank. What an unload does to the pool
-- is not part of this.
pub handle_all-Recoverable :
    (p : Platform) (msgs : List (Moment × HomeKeyMessage)) (c : Coordinator)
    → Recoverable c
    → Recoverable (handle_all p msgs c)
unfolding handle_all handle_message
handle_all-Recoverable p [] c r = r
handle_all-Recoverable p ((m, msg) ∷ rest) c r =
    handle_all-Recoverable p rest (handle_message p m msg c)
      (elim (Bool-cases (text_eq msg.household_id c.household_id)) [
        | inl ours ↦ rw ours (dispatch-Recoverable p m msg c r)
        | inr other ↦ rw other r
      ])
