-- ===== src/Prelude/Splits.antt =====
-- `split` and `join` undo one another.
use Prim.Native.Nat.{ℕ}
use mathlib.Core.Path.{◌≡◌, refl, ap, ◌∙◌}
use mathlib.Core.Bool.{Bool, true, not}
use mathlib.Core.Option.{some}
use mathlib.Core.List.{List, [], ◌∷◌, ◌++◌}
use mathlib.Core.Logic.{inl, inr}
use native.Mathlib.Omega.{arith}
use homekey_household.Prelude.Tests.{◌==◌, Option-cases}
use homekey_household.Prelude.Lists.{all}
use homekey_household.Prelude.Texts.{Text, split, split_add, join, strip_prefix, split_once}

-- `sep not in s`
abbrev pub free_of : ℕ → Text → Bool
free_of sep s = all (λ c. not (c == sep)) s

pub split-append :
    (sep : ℕ) (w s : Text)
    → free_of sep w ≡ true
    → split sep (w ++ (sep ∷ s)) ≡ (w, (split sep s).0 ∷ (split sep s).1)
unfolding split
split-append sep [] s h = ground arith
split-append sep (c ∷ w) s h = ground (arith, split-append sep w s)

-- One more part in front.
pub split_part :
    (sep : ℕ) (w s v : Text) (vs : List Text)
    → free_of sep w ≡ true
    → split sep s ≡ (v, vs)
    → split sep (w ++ (sep ∷ s)) ≡ (w, v ∷ vs)
split_part sep w s v vs h e = split-append sep w s h ∙ ap (λ p. (w, p.0 ∷ p.1)) e

pub split_free : (sep : ℕ) (w : Text) → free_of sep w ≡ true → split sep w ≡ (w, [])
unfolding split
split_free sep [] h = refl
split_free sep (c ∷ w) h = ground (arith, split_free sep w)

join-split_add :
    (sep c : ℕ) (p : Text × List Text)
    → join sep (split_add sep c p).0 (split_add sep c p).1 ≡ c ∷ join sep p.0 p.1
unfolding join split_add
join-split_add sep c (w, []) = ground arith
join-split_add sep c (w, v ∷ vs) = ground arith

pub join-split : (sep : ℕ) (s : Text) → join sep (split sep s).0 (split sep s).1 ≡ s
unfolding split join split_add
join-split sep [] = refl
join-split sep (c ∷ s) = join-split_add sep c (split sep s) ∙ ap (◌∷◌ c) (join-split sep s)

pub strip_prefix_sound : (p s r : Text) → strip_prefix p s ≡ some r → s ≡ p ++ r
unfolding strip_prefix
strip_prefix_sound [] s r h = ground arith
strip_prefix_sound (c ∷ p) [] r h = cc
strip_prefix_sound (c ∷ p) (d ∷ s) r h = ground (arith, strip_prefix_sound p s r)

pub split_once_sound :
    (sep : ℕ) (s a b : Text)
    → split_once sep s ≡ some (a, b)
    → (s ≡ a ++ (sep ∷ b)) × (free_of sep a ≡ true)
unfolding split_once
split_once_sound sep [] a b h = absurd (cc)
split_once_sound sep (c ∷ s) a b h = elim (Option-cases (split_once sep s)) [
  | inl none' ↦ ground arith
  | inr ((x, y), found) ↦ ground (arith, split_once_sound sep s x y)
]
