-- ===== src/Tests/Control.antt =====
-- Commands and their confirmation at a concrete entry.
use homekey_household.Prelude.{
  ◌+◌, ◌*◌, codes, truthy, true, false, none, some, [], ◌∷◌, ◌≡◌, ◌⊎◌, refl, arith, pos,
}
use homekey_household.Const.Words.{LockState}
use homekey_household.Models.Json.{str, obj, Fields, end, field}
use homekey_household.Models.Errors.{ok, raise, credential_unavailable}
use homekey_household.Direct.Client.{Exchange}
use homekey_household.Direct.Poller
use homekey_household.Direct.Poller.{new_poller}
use homekey_household.Control.Sending
use homekey_household.Control.Sending.{
  Controller, DirectNode, Attempt, command_control_enabled, send_lock_command,
}
use homekey_household.Control.Refusal.{send_lock_command_refused}
use homekey_household.Control.Lock.{Watch, wait_for_state}
use homekey_household.Control.Confirmation.{Reported, wait_for_state_ends}
use homekey_household.Control.Guests
use homekey_household.Control.Guests.{
  Runtimes, stripped, requested_entry, revoke, revoke_guest_tag, shown_error,
}
use homekey_household.Control.Targets.{IsTarget, revoke-IsTarget}
use homekey_household.Models.Values
use homekey_household.Tests.Data.{
  program, home, gate, toy, draws, with_json, described, writer, fresh, noon,
}

abbrev pub attempt : Attempt
attempt = record {
  crypto = toy;
  dumps = λ j. codes "{}";
  platform = with_json described;
  writer = writer;
  draws = draws;
  answer = Exchange.response 200 (ok (obj end));
  poll = record {
    info = Exchange.timed_out;
    state = Exchange.timed_out;
    guest = Exchange.timed_out;
    times = λ i. noon;
  };
}

abbrev keyless : Controller
keyless = record { household_id = home; provider = some (some []); mqtt = none; direct = none }

send_lock_command_refused_example :
    send_lock_command attempt gate (codes "lock") keyless
    ≡ (([], raise credential_unavailable), keyless)
send_lock_command_refused_example =
    send_lock_command_refused attempt gate (codes "lock") keyless
      (unfold command_control_enabled Sending.command_key Sending.is_some in refl)

-- A node that never answers, and a clock that moves by each sleep.
abbrev silence : Watch
silence = record { start = 7; look = λ i. none; now = λ i. 7 + i * 500000 }

wait_for_state_ends_example :
    ((wait_for_state silence LockState.locked ≡ some true) × Reported silence LockState.locked 0)
    ⊎ ((wait_for_state silence LockState.locked ≡ some false)
        × (¬ Reported silence LockState.locked 0))
wait_for_state_ends_example =
    wait_for_state_ends silence LockState.locked
      (record { begins = omega arith; sleeps = λ i. omega arith })

abbrev polled : Controller
polled = record {
  household_id = home;
  provider = none;
  mqtt = none;
  direct = some (record {
    client = record {
      host = codes "10.0.0.2";
      port = pos 443;
      der = [];
      username = codes "admin";
      password = codes "secret";
    };
    poller = record (new_poller home fresh) { node_id = some gate };
  });
}

abbrev runtimes : Runtimes
runtimes = (codes "entry", polled) ∷ []

abbrev call : Fields
call = field (codes "tag_id") (str (codes " t1 ")) end

revoke-IsTarget_example :
    (c : Controller) × IsTarget (requested_entry call) runtimes (codes "entry") c
    × (truthy (stripped attempt.writer call (codes "tag_id")) ≡ true)
    × (shown_error (revoke_guest_tag attempt (codes "t1") polled)
        ≡ shown_error (revoke_guest_tag attempt (stripped attempt.writer call (codes "tag_id")) c))
unfolding program revoke stripped requested_entry Guests.runtime_for Guests.on_node
    Guests.node_id_for Guests.only_one Values.truthy_json Values.or_json Values.text_of
    Poller.new_poller
revoke-IsTarget_example =
    revoke-IsTarget attempt call runtimes (codes "entry")
      (shown_error (revoke_guest_tag attempt (codes "t1") polled)) refl
