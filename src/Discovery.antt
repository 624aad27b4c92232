-- ===== src/Discovery.antt =====
-- custom_components/homekey_household/discovery.py: the entities of the nodes, added as the nodes
-- are discovered.
pub mod Once
use homekey_household.Prelude.{
  Text, text_eq, text_eq_iff, member, Bool, true, false, ◌||◌, List, [], ◌∷◌, ◌++◌, append_assoc,
  ◌≡◌, refl, sym, ap, ◌∙◌, arith, Bool-cases, inl, inr, if◌then◌else◌,
}

-- `seen`, in the order in which it grew, and the calls of `async_add_entities`.
pub record Adder {ℓ} (E : Type ℓ) : Type ℓ where
  pub seen : List Text
  pub added : List (List E)

module _ {ℓ} {E : Type ℓ} (factory : Text → List E) where
  -- The loop over `coordinator.nodes`: what has been seen after it, and the new entities.
  unfoldable pub collect : List Text → List Text → List E → List Text × List E
  collect [] seen entities = (seen, entities)
  collect (node_id ∷ rest) seen entities = elim (member node_id seen) [
    | true ↦ collect rest seen entities
    | false ↦ collect rest (seen ++ (node_id ∷ [])) (entities ++ factory node_id)
  ]

  -- `if new_entities: async_add_entities(new_entities)`
  unfoldable pub add_if_any : List E → List (List E) → List (List E)
  add_if_any [] added = added
  add_if_any (e ∷ es) added = added ++ ((e ∷ es) ∷ [])

  -- `_add_new_nodes`, over the ids of the registry
  unfoldable pub add_new_nodes : List Text → Adder E → Adder E
  unfolding collect add_if_any
  add_new_nodes node_ids a =
      let (seen, entities) = collect node_ids a.seen [] in
      record { seen = seen; added = add_if_any entities a.added }

  -- `async_add_entities_for_nodes`: the first pass, and a pass for each later update.
  unfoldable pub passes : List (List Text) → Adder E → Adder E
  passes [] a = a
  passes (node_ids ∷ later) a = passes later (add_new_nodes node_ids a)

  abbrev pub nothing_added : Adder E
  nothing_added = record { seen = []; added = [] }
