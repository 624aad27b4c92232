-- ===== src/Models/Parts.antt =====
-- models.py: what the parts of a `from_dict` that returned say of the payload.
use homekey_household.Prelude.{
  Text, text_eq_iff, truthy, or_text, Bool, true, false, Option, none, some, [], ◌∷◌, ℤ, ◌≡◌, refl,
  ap, subst, ◌∙◌, ◌⊎◌, inl, inr, arith, Bool-cases,
}
use homekey_household.Models.Json.{Json, null, int, str, obj, Fields, get, has}
use homekey_household.Models.Errors.{Error, Result, ok, raise, ◌>>=◌, guard}
use homekey_household.Models.Validators.{
  as_str, as_optional_int, as_optional_str, require_dict, require_str, optional_str, optional_int,
  require_match, validate_match,
}

-- A chain that returned: its first call did, and what follows made the result of that.
pub >>=-eq-ok {ι κ} :
    {A : Type ι} {C : Type κ} (first : Result A) (rest : A → Result C) {c : C}
    → (first >>= rest) ≡ ok c
    → (a : A) × (first ≡ ok a) × (rest a ≡ ok c)
>>=-eq-ok (raise e) rest h = absurd (cc)
>>=-eq-ok (ok a) rest h = (a, refl, h)

pub guard-eq-ok : (test : Bool) (e : Error) {u : Unit {0}} → guard test e ≡ ok u → test ≡ true
guard-eq-ok false e h = absurd (cc)
guard-eq-ok true e h = refl

-- A payload is an object.
pub require_dict-eq-ok :
    (payload : Json) (where' : Text) (d : Fields)
    → require_dict payload where' ≡ ok d
    → payload ≡ obj d
unfolding require_dict
require_dict-eq-ok (obj fs) where' d h = ground arith
require_dict-eq-ok null where' d h = absurd (cc)
require_dict-eq-ok _ where' d h = absurd (cc)

pub as_str-eq-ok : (key s : Text) (v : Json) → as_str key v ≡ ok s → (v ≡ str s) × (truthy s ≡ true)
unfolding as_str
as_str-eq-ok key s (str t) h = elim (Bool-cases (truthy t)) [
  | inl full ↦ (ground arith, ground arith)
  | inr empty ↦ absurd (cc (rw empty at h))
]
as_str-eq-ok key s null h = absurd (cc)
as_str-eq-ok key s _ h = absurd (cc)

pub require_str-eq-ok :
    (d : Fields) (key s : Text) → require_str d key ≡ ok s → (get d key ≡ str s) × (truthy s ≡ true)
unfolding require_str
require_str-eq-ok d key s h = as_str-eq-ok key s (get d key) h

-- An optional integer as it stands in the payload: nothing for a missing field or null, and never a
-- number that the payload does not hold.
abbrev pub Reads : Json → Option ℤ → Type 0
Reads v o = ((v ≡ null) × (o ≡ none)) ⊎ ((n : ℤ) × (v ≡ int n) × (o ≡ some n))

pub as_optional_int-Reads :
    (key : Text) (v : Json) (o : Option ℤ) → as_optional_int key v ≡ ok o → Reads v o
unfolding as_optional_int
as_optional_int-Reads key null o h = inl (refl, ground arith)
as_optional_int-Reads key (int n) o h = inr (n, refl, ground arith)
as_optional_int-Reads key _ o h = absurd (cc)

pub optional_int-Reads :
    (d : Fields) (key : Text) (o : Option ℤ) → optional_int d key ≡ ok o → Reads (get d key) o
unfolding optional_int
optional_int-Reads d key o h = as_optional_int-Reads key (get d key) o h

pub as_optional_str-eq-ok :
    (v : Json) (where' s : Text) → as_optional_str v where' ≡ ok (some s) → v ≡ str s
unfolding as_optional_str
as_optional_str-eq-ok null where' s h = absurd (cc)
as_optional_str-eq-ok (str t) where' s h = ground arith
as_optional_str-eq-ok _ where' s h = absurd (cc)

pub require_match-eq-ok :
    (d : Fields) (key expected where' : Text) {u : Unit {0}}
    → require_match d key expected where' ≡ ok u
    → get d key ≡ str expected
unfolding require_match
require_match-eq-ok d key expected where' h =
    let (got, read, same) = >>=-eq-ok (require_str d key) _ h in
    (require_str-eq-ok d key got read).0
    ∙ ap str ((text_eq_iff got expected).0 (guard-eq-ok _ _ same))

pub validate_match-eq-ok :
    (d : Fields) (key expected where' : Text) {u : Unit {0}}
    → validate_match d key expected where' ≡ ok u
    → has d key ≡ true
    → get d key ≡ str expected
unfolding validate_match
validate_match-eq-ok d key expected where' h there =
    require_match-eq-ok d key expected where' (rw there at h)

pub optional_str-eq-ok :
    (d : Fields) (key s : Text) → optional_str d key ≡ ok (some s) → get d key ≡ str s
unfolding optional_str
optional_str-eq-ok d key s h = as_optional_str-eq-ok (get d key) key s h

pub require_match-truthy :
    (d : Fields) (key expected where' : Text) {u : Unit {0}}
    → require_match d key expected where' ≡ ok u
    → truthy expected ≡ true
unfolding require_match
require_match-truthy d key expected where' h =
    let (got, read, same) = >>=-eq-ok (require_str d key) _ h in
    subst (λ t. truthy t ≡ true) ((text_eq_iff got expected).0 (guard-eq-ok _ _ same))
      (require_str-eq-ok d key got read).1

pub or_text-truthy : (o : Option Text) (d : Text) → truthy d ≡ true → truthy (or_text o d) ≡ true
or_text-truthy none d h = h
or_text-truthy (some []) d h = h
or_text-truthy (some (x ∷ s)) d h = refl

pub ok_injective {ℓ} : {A : Type ℓ} {a b : A} → ok a ≡ ok b → a ≡ b
ok_injective h = cc

-- A field of a value that was returned.
pub of_ok {ℓ κ} : {A : Type ℓ} {B : Type κ} (f : A → B) {a b : A} → ok a ≡ ok b → f a ≡ f b
of_ok f h = ap f (ok_injective h)

-- What follows from each part of a chain that returned follows from the chain.
pub bind_ensures {ℓ κ ι} :
    {A : Type ℓ} {B : Type κ} (Q : B → Type ι) (m : Result A) (f : A → Result B)
    → ((a : A) → m ≡ ok a → (b : B) → f a ≡ ok b → Q b)
    → (b : B) → (m >>= f) ≡ ok b
    → Q b
bind_ensures Q (ok a) f k b h = k a refl b h
bind_ensures Q (raise e) f k b h = absurd (cc)
