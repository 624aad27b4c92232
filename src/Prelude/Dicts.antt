-- ===== src/Prelude/Dicts.antt =====
-- Python's `dict` with text keys: an association list in insertion order.
use mathlib.Core.Path.{◌≡◌, refl, ◌∙◌}
use mathlib.Core.Bool.{false}
use mathlib.Core.Option.{Option, none, some}
use mathlib.Core.List.{List, [], ◌∷◌, ◌++◌}
use native.Mathlib.Omega.{arith}
use homekey_household.Prelude.Tests.{if◌then◌else◌}
use homekey_household.Prelude.Texts.{Text, text_eq, text_eq_iff, text_eq_self, member}

abbrev pub Dict {ℓ} : Type ℓ → Type ℓ
Dict V = List (Text × V)

module _ {ℓ} {V : Type ℓ} where
  -- d.get(k)
  unfoldable pub lookup : Text → Dict V → Option V
  lookup k [] = none
  lookup k ((j, v) ∷ d) = if text_eq j k then some v else lookup k d

  -- d[k] = v
  unfoldable pub insert : Text → V → Dict V → Dict V
  insert k v [] = (k, v) ∷ []
  insert k v ((j, w) ∷ d) = if text_eq j k then (j, v) ∷ d else (j, w) ∷ insert k v d

  -- d.pop(k, None)
  unfoldable pub remove : Text → Dict V → Dict V
  remove k [] = []
  remove k ((j, v) ∷ d) = if text_eq j k then d else (j, v) ∷ remove k d

  abbrev pub keys : Dict V → List Text
  keys [] = []
  keys ((j, v) ∷ d) = j ∷ keys d

  pub lookup-insert :
      (k j : Text) (v : V) (d : Dict V)
      → lookup j (insert k v d) ≡ (if text_eq k j then some v else lookup j d)
  unfolding lookup insert
  lookup-insert k j v [] = refl
  lookup-insert k j v ((i, w) ∷ d) =
      ground (arith, text_eq_iff k j, text_eq_iff i k, text_eq_iff i j, lookup-insert k j v d)

  pub lookup-insert_self : (k : Text) (v : V) (d : Dict V) → lookup k (insert k v d) ≡ some v
  lookup-insert_self k v d = simp (lookup-insert, text_eq_self)

  pub lookup-insert_ne :
      (k j : Text) (v : V) (d : Dict V) → text_eq k j ≡ false → lookup j (insert k v d) ≡ lookup j d
  lookup-insert_ne k j v d h = lookup-insert k j v d ∙ rw h

  -- Writing a key twice leaves the second value in the first one's place.
  pub insert-insert : (k : Text) (v w : V) (d : Dict V) → insert k w (insert k v d) ≡ insert k w d
  unfolding insert
  insert-insert k v w [] = ground (arith, text_eq_self k)
  insert-insert k v w ((i, u) ∷ d) = ground (arith, insert-insert k v w d)

  -- Writing the value that is there changes nothing.
  pub insert_present : (k : Text) (v : V) (d : Dict V) → lookup k d ≡ some v → insert k v d ≡ d
  unfolding insert lookup
  insert_present k v [] h = cc
  insert_present k v ((i, u) ∷ d) h = ground (arith, insert_present k v d)

  pub insert_absent :
      (k : Text) (v : V) (d : Dict V) → lookup k d ≡ none → insert k v d ≡ d ++ ((k, v) ∷ [])
  unfolding insert lookup
  insert_absent k v [] h = refl
  insert_absent k v ((i, u) ∷ d) h = ground (arith, insert_absent k v d)

pub ruleset dict_laws = (lookup-insert, lookup-insert_self, insert-insert, text_eq_self)
