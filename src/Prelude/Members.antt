-- ===== src/Prelude/Members.antt =====
-- What holds of every text of a list holds of a member.
use mathlib.Core.Path.{◌≡◌, ap, ◌∙◌, sym}
use mathlib.Core.Bool.{Bool, true}
use mathlib.Core.Logic.{inl, inr}
use mathlib.Core.List.{List, [], ◌∷◌}
use native.Mathlib.Omega.{arith}
use homekey_household.Prelude.Tests.{Bool-cases, and_true}
use homekey_household.Prelude.Lists.{all}
use homekey_household.Prelude.Texts.{Text, text_eq, text_eq_iff, member}

pub member-all :
    (p : Text → Bool) (s : Text) (xs : List Text)
    → all p xs ≡ true
    → member s xs ≡ true
    → p s ≡ true
unfolding member
member-all p s [] h m = absurd (cc)
member-all p s (x ∷ xs) h m =
    let (first, rest) = and_true (p x) (all p xs) h in
    elim (Bool-cases (text_eq x s)) [
      | inl here ↦ sym (ap p ((text_eq_iff x s).0 here)) ∙ first
      | inr there ↦ member-all p s xs rest (ground arith)
    ]
