-- ===== src/Discovery/Once.antt =====
-- discovery.py: each node's entities are added once, and none is left out.
use homekey_household.Prelude.{
  Text, text_eq_iff, member, false, ◌||◌, List, [], ◌∷◌, ◌++◌, append_assoc, append-nil, ◌≡◌, refl,
  sym, ap, ◌∙◌, arith, Bool-cases, inl, inr,
}
use homekey_household.Discovery.{Adder, collect, add_if_any, add_new_nodes, passes, nothing_added}

-- No id comes twice.
abbrev pub Distinct : List Text → Type 0
Distinct [] = Unit
Distinct (x ∷ xs) = (member x xs ≡ false) × Distinct xs

member-append : (k : Text) (xs ys : List Text) → member k (xs ++ ys) ≡ (member k xs || member k ys)
unfolding member
member-append k [] ys = refl
member-append k (x ∷ xs) ys = ground (arith, member-append k xs ys)

Distinct-append :
    (xs : List Text) (k : Text) → Distinct xs → member k xs ≡ false → Distinct (xs ++ (k ∷ []))
unfolding member
Distinct-append [] k d h = (refl, tt)
Distinct-append (x ∷ xs) k (new, d) h = (
  ground (arith, member-append x xs (k ∷ []), text_eq_iff k x, text_eq_iff x k),
  Distinct-append xs k d (ground arith),
)

-- The lists in their order, as one.
abbrev pub joined {ℓ} : {E : Type ℓ} → List (List E) → List E
joined [] = []
joined (es ∷ rest) = es ++ joined rest

joined-append {ℓ} :
    {E : Type ℓ} (xs ys : List (List E)) → joined (xs ++ ys) ≡ joined xs ++ joined ys
joined-append [] ys = refl
joined-append (x ∷ xs) ys =
    ap (◌++◌ x) (joined-append xs ys) ∙ sym (append_assoc x (joined xs) (joined ys))

-- The calls so far with a call for the new entities, if there are any.
joined-add_if_any {ℓ} :
    {E : Type ℓ} (factory : Text → List E) (es : List E) (added : List (List E))
    → joined (add_if_any factory es added) ≡ joined added ++ es
unfolding add_if_any
joined-add_if_any factory [] added = sym (append-nil (joined added))
joined-add_if_any factory (e ∷ es) added =
    joined-append added ((e ∷ es) ∷ []) ∙ ap (λ t. joined added ++ t) (append-nil (e ∷ es))

module _ {ℓ} {E : Type ℓ} (factory : Text → List E) where
  -- The entities of some nodes.
  abbrev pub entities_of : List Text → List E
  entities_of [] = []
  entities_of (k ∷ ks) = factory k ++ entities_of ks

  entities_of_snoc :
      (xs : List Text) (k : Text) → entities_of (xs ++ (k ∷ [])) ≡ entities_of xs ++ factory k
  entities_of_snoc [] k = append-nil (factory k)
  entities_of_snoc (x ∷ xs) k =
      ap (◌++◌ (factory x)) (entities_of_snoc xs k)
      ∙ sym (append_assoc (factory x) (entities_of xs) (factory k))

  -- What the loop leaves: `base` stands for what was added before it.
  record Collected (base : List E) (ids seen : List Text) (r : List Text × List E) : Type ℓ where
    distinct : Distinct r.0
    exact : base ++ r.1 ≡ entities_of r.0
    complete : (k : Text) → member k r.0 ≡ (member k seen || member k ids)

  collect-Collected :
      (base : List E) (ids seen : List Text) (entities : List E)
      → Distinct seen
      → base ++ entities ≡ entities_of seen
      → Collected base ids seen (collect factory ids seen entities)
  unfolding collect member
  collect-Collected base [] seen entities d e = record {
    distinct = d;
    exact = e;
    complete = λ k. ground arith;
  }
  collect-Collected base (i ∷ ids) seen entities d e = elim (Bool-cases (member i seen)) [
    | inl old ↦
        let r = collect-Collected base ids seen entities d e in
        rw (collect, old)
          (record {
            distinct = r.distinct;
            exact = r.exact;
            complete = λ k. ground (arith, r.complete k, text_eq_iff i k);
          })
    | inr new ↦
        let r =
          collect-Collected base ids (seen ++ (i ∷ [])) (entities ++ factory i)
            (Distinct-append seen i d new)
            (sym (append_assoc base entities (factory i))
              ∙ ap (λ t. t ++ factory i) e
              ∙ sym (entities_of_snoc seen i)) in
        rw (collect, new)
          (record {
            distinct = r.distinct;
            exact = r.exact;
            complete = λ k. ground (arith, r.complete k, member-append k seen (i ∷ []));
          })
  ]

  passes_from :
      (shown : List (List Text)) (a : Adder E)
      → Distinct a.seen
      → joined a.added ≡ entities_of a.seen
      → Distinct (passes factory shown a).seen
        × (joined (passes factory shown a).added ≡ entities_of (passes factory shown a).seen)
        × ((k : Text)
            → member k (passes factory shown a).seen ≡ (member k a.seen || member k (joined shown)))
  unfolding passes add_new_nodes member
  passes_from [] a d e = (d, e, λ k. ground arith)
  passes_from (ids ∷ later) a d e =
      let r =
        collect-Collected (joined a.added) ids a.seen [] d (append-nil (joined a.added) ∙ e) in
      let (d', e', complete) =
        passes_from later (add_new_nodes factory ids a) r.distinct
          (joined-add_if_any factory (collect factory ids a.seen []).1 a.added ∙ r.exact) in
      (d', e', λ k. ground (arith, complete k, r.complete k, member-append k ids (joined later)))

  -- Over the first pass and any later ones, each node id that the registry showed at any time is seen
  -- once, no other is, and the entities that were added are those of the seen ids, each id's once.
  pub passes_once :
      (shown : List (List Text))
      → Distinct (passes factory shown (nothing_added factory)).seen
        × (joined (passes factory shown (nothing_added factory)).added
            ≡ entities_of (passes factory shown (nothing_added factory)).seen)
        × ((k : Text)
            → member k (passes factory shown (nothing_added factory)).seen
              ≡ member k (joined shown))
  unfolding member
  passes_once shown = passes_from shown (nothing_added factory) tt refl
