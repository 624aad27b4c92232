-- ===== src/Control/Refusal.antt =====
-- coordinator.py: no command leaves an entry that cannot authenticate it.
use homekey_household.Prelude.{Text, false, Option, none, some, [], ◌≡◌, refl, ap, ◌∙◌, arith}
use homekey_household.Models.Errors.{raise, credential_unavailable}
use homekey_household.Control.Sending.{
  Controller, Attempt, command_key, is_some, command_control_enabled, send_keyed, send_over,
  send_lock_command,
}

is_some-false {ℓ} : {A : Type ℓ} (o : Option A) → is_some o ≡ false → o ≡ none
unfolding is_some
is_some-false none h = refl
is_some-false (some v) h = absurd (cc)

-- Where command control is not enabled, because no node is reached directly and there is no command
-- key, a command to any node fails for want of a credential: no request is sent, no message is
-- published, and the controller, its nonces included, is as it was.
pub send_lock_command_refused :
    (t : Attempt) (node_id action : Text) (c : Controller)
    → command_control_enabled c ≡ false
    → send_lock_command t node_id action c ≡ (([], raise credential_unavailable), c)
unfolding send_lock_command command_control_enabled send_over send_keyed
send_lock_command_refused t node_id action c h =
    let over : c.direct ≡ none = is_some-false c.direct (ground arith) in
    let keyless : command_key c ≡ none = is_some-false (command_key c) (ground arith) in
    ap (λ d. send_over t node_id action d c) over
    ∙ ap (λ k. send_keyed t node_id action k c) keyless
