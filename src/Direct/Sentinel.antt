-- ===== src/Direct/Sentinel.antt =====
-- direct.py, `health_from_state`: the value for a lock state that is not reported.
use homekey_household.Prelude.{
  Text, codes, text_eq, text_eq_iff, false, ◌≡◌, refl, ◌∙◌, arith, Bool-cases, inl, inr,
}
use homekey_household.Const.Words.{key_lock_current, key_lock_target}
use homekey_household.Models.Json.{null, obj, Fields, get}
use homekey_household.Models.Errors.{ok}
use homekey_household.Direct.Health.{health_from_state, drop_unreported, is_not_reported, pop}

get-pop : (key : Text) (fs : Fields) → get (pop key fs) key ≡ null
unfolding get pop
get-pop key Fields.end = refl
get-pop key (Fields.field k v fs) = ground (arith, get-pop key fs)

get-pop_ne :
    (key other : Text) (fs : Fields)
    → text_eq key other ≡ false
    → get (pop key fs) other ≡ get fs other
unfolding get pop
get-pop_ne key other Fields.end h = refl
get-pop_ne key other (Fields.field k v fs) h =
    ground (
      arith,
      get-pop_ne key other fs,
      text_eq_iff k key,
      text_eq_iff k other,
      text_eq_iff key other,
    )

drop_unreported_self :
    (key : Text) (fs : Fields) → is_not_reported (get (drop_unreported key fs) key) ≡ false
unfolding drop_unreported is_not_reported
drop_unreported_self key fs = elim (Bool-cases (is_not_reported (get fs key))) [
  | inl sentinel ↦ rw (sentinel, get-pop) refl
  | inr reported ↦ rw (reported) reported
]

drop_unreported_ne :
    (key other : Text) (fs : Fields)
    → text_eq key other ≡ false
    → get (drop_unreported key fs) other ≡ get fs other
unfolding drop_unreported
drop_unreported_ne key other fs h = ground (arith, get-pop_ne key other fs)

-- The health document of an answer is taken as it is, but for the lock states: neither of the two is
-- the value that stands for one that is not reported, and any other field is the one of the answer.
pub health_from_state_reported :
    (state health : Fields) (key : Text)
    → get state (codes "health") ≡ obj health
    → text_eq key_lock_current key ≡ false
    → text_eq key_lock_target key ≡ false
    → (payload : Fields) × (health_from_state state ≡ ok payload)
      × (is_not_reported (get payload key_lock_current) ≡ false)
      × (is_not_reported (get payload key_lock_target) ≡ false)
      × (get payload key ≡ get health key)
unfolding health_from_state text_eq
health_from_state_reported state health key is c t =
    let once = drop_unreported key_lock_current health in
    let payload = drop_unreported key_lock_target once in
    (
      payload,
      rw (is, health_from_state) refl,
      rw (drop_unreported_ne key_lock_target key_lock_current once refl)
          (drop_unreported_self key_lock_current health),
      drop_unreported_self key_lock_target once,
      drop_unreported_ne key_lock_target key once t
          ∙ drop_unreported_ne key_lock_current key health c,
    )
