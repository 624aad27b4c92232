-- ===== src/Control/Lock.antt =====
-- lock.py, `HomeKeyLock`: what the entity shows, and a command with the wait for its outcome.
use homekey_household.Prelude.{
  ℕ, zero, suc, ◌+◌, leb, Text, text_eq, Bool, true, false, Option, none, some, if◌then◌else◌,
}
use homekey_household.Const.Words.{LockState, lock_state_value}
use homekey_household.Const.Topics.{action_lock}
use homekey_household.Models.Errors.{Result, ok, raise, service_error, home_assistant_error}
use homekey_household.Models.Node.{Node, lock_state}
use homekey_household.Control.Sending.{Controller, Attempt, Outcome, Delivery, send_lock_command}

-- Members of a `StrEnum` are equal when their texts are.
unfoldable pub lock_state_eq : LockState → LockState → Bool
unfolding lock_state_value text_eq
lock_state_eq a b = text_eq (lock_state_value a) (lock_state_value b)

-- Whether the node reports the state: `node is not None and node.lock_state == target`
unfoldable pub reports : LockState → Option Node → Bool
unfolding lock_state_eq lock_state
reports target none = false
reports target (some n) = lock_state_eq (lock_state n) target

-- A state of the entity that a node without a record does not have.
abbrev pub shown : LockState → Option Node → Option Bool
shown state none = none
shown state (some n) = some (lock_state_eq (lock_state n) state)

unfoldable pub is_locked : Option Node → Option Bool
unfolding lock_state_eq lock_state
is_locked none = none
is_locked (some n) =
    if lock_state_eq (lock_state n) LockState.unknown
    then none
    else some (lock_state_eq (lock_state n) LockState.locked)

unfoldable pub is_jammed : Option Node → Option Bool
unfolding lock_state_eq lock_state
is_jammed n = shown LockState.jammed n

unfoldable pub is_locking : Option Node → Option Bool
unfolding lock_state_eq lock_state
is_locking n = shown LockState.locking n

unfoldable pub is_unlocking : Option Node → Option Bool
unfolding lock_state_eq lock_state
is_unlocking n = shown LockState.unlocking n

-- `COMMAND_CONFIRM_TIMEOUT_SECONDS` and `COMMAND_CONFIRM_POLL_SECONDS`, in microseconds
abbrev pub confirm_timeout : ℕ
confirm_timeout = 10000000

abbrev pub confirm_poll : ℕ
confirm_poll = 500000

-- What the loop meets: the node at its i-th look, and `time.monotonic()` before the first and after
-- each, in microseconds.
pub record Watch : Type 0 where
  pub start : ℕ
  pub look : ℕ → Option Node
  pub now : ℕ → ℕ

-- The loop of `_async_wait_for_state`, from its i-th look; `none` is out of fuel.
unfoldable pub wait_from : Watch → LockState → ℕ → ℕ → Option Bool
unfolding reports
wait_from o target zero i = none
wait_from o target (suc f) i =
    let rest = wait_from o target f (suc i) in
    if reports target (o.look i)
    then some true
    else if leb (o.start + confirm_timeout) (o.now i)
    then some false
    else rest

-- The looks that are enough: one at the start, and one after each poll of the ten seconds.
abbrev pub confirm_looks : ℕ
confirm_looks = 21

unfoldable pub wait_for_state : Watch → LockState → Option Bool
unfolding wait_from
wait_for_state o target = wait_from o target confirm_looks 0

-- `LockState.LOCKED if action == "lock" else LockState.UNLOCKED`
unfoldable pub target_of : Text → LockState
target_of action = if text_eq action action_lock then LockState.locked else LockState.unlocked

-- What the caller is told of the wait; `none` is a wait that does not end.
abbrev pub verdict : Option Bool → Option (Result (Unit {0}))
verdict none = none
verdict (some true) = some (ok tt)
verdict (some false) = some (raise service_error)

-- How the call ends: whatever the command raises becomes `HomeAssistantError`.
unfoldable pub conclude : Watch → LockState → Result Delivery → Option (Result (Unit {0}))
unfolding wait_for_state
conclude o target (raise e) = some (raise home_assistant_error)
conclude o target (ok d) = verdict (wait_for_state o target)

-- `_async_send`
unfoldable pub send :
    Attempt → Watch → Text → Text → Controller → Option (Result (Unit {0})) × Outcome Delivery
unfolding send_lock_command conclude target_of
send t o node_id action c =
    let ((sent, r), after) = send_lock_command t node_id action c in
    (conclude o (target_of action) r, ((sent, r), after))
