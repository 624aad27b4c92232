-- ===== src/Control/Confirmation.antt =====
-- lock.py: the wait ends, and says what the node reported.
use homekey_household.Prelude.{
  ℕ, zero, suc, ◌+◌, ◌*◌, ◌≤◌, leb, le→leb, Bool, true, false, Bool-cases, some, ◌≡◌, ◌⊎◌, refl,
  arith, inl, inr,
}
use homekey_household.Const.Words.{LockState}
use homekey_household.Control.Lock.{
  Watch, reports, wait_from, wait_for_state, confirm_timeout, confirm_poll, confirm_looks,
}

-- From its i-th look on, the loop sees the state: at this look, or at a later one before which the
-- deadline has not passed.
pub data Reported (o : Watch) (target : LockState) : ℕ → Type 0 where
  here : {i : ℕ} → reports target (o.look i) ≡ true → Reported o target i
  later :
      {i : ℕ}
      → leb (o.start + confirm_timeout) (o.now i) ≡ false
      → Reported o target (suc i)
      → Reported o target i

-- The clock does not go back, and a sleep lasts as long as it is asked to.
pub record IsClock (o : Watch) : Type 0 where
  pub begins : o.start ≤ o.now 0
  pub sleeps : (i : ℕ) → o.now i + confirm_poll ≤ o.now (suc i)

wait_from_ends :
    (o : Watch) (target : LockState) (f i : ℕ)
    → IsClock o
    → o.start + confirm_timeout ≤ o.now i + f * confirm_poll
    → (b : Bool) × (wait_from o target (suc f) i ≡ some b)
unfolding wait_from
wait_from_ends o target zero i c h = elim (Bool-cases (reports target (o.look i))) [
  | inl seen ↦ (true, rw seen refl)
  | inr unseen ↦
      (false, rw (unseen, le→leb (o.start + confirm_timeout) (o.now i) (omega arith)) refl)
]
wait_from_ends o target (suc f) i c h = elim (Bool-cases (reports target (o.look i))) [
  | inl seen ↦ (true, rw seen refl)
  | inr unseen ↦ elim (Bool-cases (leb (o.start + confirm_timeout) (o.now i))) [
    | inl over ↦ (false, rw (unseen, over) refl)
    | inr waits ↦
        let (b, e) = wait_from_ends o target f (suc i) c (omega (arith, c.sleeps i)) in
        (b, rw (unseen, waits) e)
  ]
]

wait_from-true :
    (o : Watch) (target : LockState) (f i : ℕ)
    → wait_from o target f i ≡ some true
    → Reported o target i
unfolding wait_from
wait_from-true o target zero i e = absurd (cc)
wait_from-true o target (suc f) i e = elim (Bool-cases (reports target (o.look i))) [
  | inl seen ↦ here seen
  | inr unseen ↦ elim (Bool-cases (leb (o.start + confirm_timeout) (o.now i))) [
    | inl over ↦ absurd (ground arith)
    | inr waits ↦ later waits (wait_from-true o target f (suc i) (ground arith))
  ]
]

wait_from-false :
    (o : Watch) (target : LockState) (f i : ℕ)
    → wait_from o target f i ≡ some false
    → ¬ Reported o target i
unfolding wait_from
wait_from-false o target zero i e r = cc
wait_from-false o target (suc f) i e (here seen) = ground arith
wait_from-false o target (suc f) i e (later waits r) =
    wait_from-false o target f (suc i) (ground arith) r

-- What the loop returned is what it saw.
wait_from_sound :
    (o : Watch) (target : LockState) (f i : ℕ) (b : Bool)
    → wait_from o target f i ≡ some b
    → ((wait_from o target f i ≡ some true) × Reported o target i)
      ⊎ ((wait_from o target f i ≡ some false) × (¬ Reported o target i))
wait_from_sound o target f i true e = inl (e, wait_from-true o target f i e)
wait_from_sound o target f i false e = inr (e, wait_from-false o target f i e)

-- Where the clock does not go back and each sleep of half a second lasts at least that long, the wait
-- ends within 21 looks: with true when the node reports the state at a look that the deadline of ten
-- seconds has not passed before, and with false when it does not.
pub wait_for_state_ends :
    (o : Watch) (target : LockState)
    → IsClock o
    → ((wait_for_state o target ≡ some true) × Reported o target 0)
      ⊎ ((wait_for_state o target ≡ some false) × (¬ Reported o target 0))
unfolding wait_for_state
wait_for_state_ends o target c =
    let (b, e) = wait_from_ends o target 20 0 c (omega (arith, c.begins)) in
    wait_from_sound o target confirm_looks 0 b e
