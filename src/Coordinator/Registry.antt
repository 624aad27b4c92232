-- ===== src/Coordinator/Registry.antt =====
-- The well-formedness of the node registry, and what the primitive writes do to it.
use homekey_household.Prelude.{
  Text, text_eq_iff, truthy, member, Dict, lookup, insert, keys, lookup-insert, lookup-insert_self,
  insert_absent, true, false, none, some, [], ◌∷◌, ◌++◌, ◌≡◌, refl, sym, ◌∙◌, ap, inl, inr, arith,
  Option-cases,
}
use homekey_household.Models.Node.{Node, new_node}
use homekey_household.Coordinator.Store.{
  Coordinator, put_node, register, ensured, ensure_node, merged, merge_node,
}

-- A node that is filed under its own id, in its own household, with a name to show.
pub record IsFiled (household_id node_id : Text) (n : Node) : Type 0 where
  pub id : n.node_id ≡ node_id
  pub household : n.household_id ≡ household_id
  pub named : truthy n.node_name ≡ true

pub record IsValid (c : Coordinator) : Type 0 where
  pub filed : (k : Text) (n : Node) → lookup k c.nodes ≡ some n → IsFiled c.household_id k n
  pub known : c.known_node_ids ≡ keys c.nodes

pub keys-insert_present :
    (k : Text) (v w : Node) (d : Dict Node) → lookup k d ≡ some v → keys (insert k w d) ≡ keys d
unfolding lookup insert
keys-insert_present k v w [] h = cc
keys-insert_present k v w ((j, u) ∷ d) h = ground (arith, keys-insert_present k v w d)

keys-append : (d e : Dict Node) → keys (d ++ e) ≡ keys d ++ keys e
keys-append [] e = refl
keys-append ((j, u) ∷ d) e = ap (◌∷◌ j) (keys-append d e)

pub keys-insert_absent :
    (k : Text) (w : Node) (d : Dict Node)
    → lookup k d ≡ none
    → keys (insert k w d) ≡ keys d ++ (k ∷ [])
keys-insert_absent k w d h = ap keys (insert_absent k w d h) ∙ keys-append d ((k, w) ∷ [])

member-keys_absent : (k : Text) (d : Dict Node) → lookup k d ≡ none → member k (keys d) ≡ false
unfolding lookup member
member-keys_absent k [] h = refl
member-keys_absent k ((j, u) ∷ d) h = ground (arith, member-keys_absent k d)

-- A write to a node that is there.
pub put_node-IsValid :
    (k : Text) (old n : Node) (c : Coordinator)
    → IsValid c
    → lookup k c.nodes ≡ some old
    → IsFiled c.household_id k n
    → IsValid (put_node k n c)
put_node-IsValid k old n c v found f = record {
  filed = λ j x e. ground (arith, lookup-insert k j n c.nodes, text_eq_iff k j, v.filed j x);
  known = v.known ∙ sym (keys-insert_present k old n c.nodes found);
}

-- A new node: it is filed, and its id joins the known ones.
pub add_node-IsValid :
    (k : Text) (n : Node) (c : Coordinator)
    → IsValid c
    → lookup k c.nodes ≡ none
    → IsFiled c.household_id k n
    → IsValid (register k (put_node k n c))
unfolding register
add_node-IsValid k n c v absent f = record {
  filed = λ j x e. ground (arith, lookup-insert k j n c.nodes, text_eq_iff k j, v.filed j x);
  known =
      ground (
        arith,
        v.known,
        keys-insert_absent k n c.nodes absent,
        member-keys_absent k c.nodes absent,
      );
}

pub ensured-IsFiled :
    (k : Text) (c : Coordinator)
    → IsValid c
    → truthy k ≡ true
    → IsFiled c.household_id k (ensured k c)
unfolding ensured
ensured-IsFiled k c v t = elim (Option-cases (lookup k c.nodes)) [
  | inl absent ↦ rw (absent, ensured) (record { id = refl; household = refl; named = t })
  | inr (n, found) ↦ rw (found, ensured) (v.filed k n found)
]

pub ensure_node-IsValid :
    (k : Text) (c : Coordinator) → IsValid c → truthy k ≡ true → IsValid (ensure_node k c)
unfolding ensure_node
ensure_node-IsValid k c v t = elim (Option-cases (lookup k c.nodes)) [
  | inl absent ↦
      rw (absent, ensure_node)
        (add_node-IsValid k (new_node k c.household_id) c v absent
          (unfold new_node in record { id = refl; household = refl; named = t }))
  | inr (n, found) ↦ rw (found, ensure_node) v
]

-- After `_ensure_node` the node is there, and it is the one that was returned.
pub lookup-ensure_node :
    (k : Text) (c : Coordinator) → lookup k (ensure_node k c).nodes ≡ some (ensured k c)
unfolding ensure_node ensured
lookup-ensure_node k c = ground (arith, lookup-insert_self k (new_node k c.household_id) c.nodes)

pub household-ensure_node :
    (k : Text) (c : Coordinator) → (ensure_node k c).household_id ≡ c.household_id
unfolding ensure_node
household-ensure_node k c = ground arith

-- A write to the node that `_ensure_node` returned.
pub put_ensured-IsValid :
    (k : Text) (n : Node) (c : Coordinator)
    → IsValid c
    → truthy k ≡ true
    → IsFiled c.household_id k n
    → IsValid (put_node k n (ensure_node k c))
put_ensured-IsValid k n c v t f =
    put_node-IsValid k (ensured k c) n (ensure_node k c) (ensure_node-IsValid k c v t)
      (lookup-ensure_node k c) (rw household-ensure_node f)

merged-IsFiled :
    (h k : Text) (incoming existing : Node)
    → IsFiled h k incoming
    → IsFiled h k existing
    → IsFiled h k (merged incoming existing)
unfolding merged
merged-IsFiled h k incoming existing f g = record {
  id = g.id;
  household = g.household;
  named = f.named;
}

pub merge_node-IsValid :
    (k : Text) (incoming : Node) (c : Coordinator)
    → IsValid c
    → IsFiled c.household_id k incoming
    → IsValid (merge_node incoming c)
unfolding merge_node
merge_node-IsValid k incoming c v f = elim (Option-cases (lookup incoming.node_id c.nodes)) [
  | inl absent ↦
      rw (absent, merge_node) (add_node-IsValid incoming.node_id incoming c v absent self)
  | inr (n, found) ↦
      rw (found, merge_node)
        (put_node-IsValid incoming.node_id n (merged incoming n) c v found (
          merged-IsFiled c.household_id incoming.node_id incoming n self
            (v.filed incoming.node_id n found)))
]
  where
    self : IsFiled c.household_id incoming.node_id incoming
    self = record { id = refl; household = f.household; named = f.named }
