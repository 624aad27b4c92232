-- ===== src/Tests/Locks.antt =====
-- Runs of the lock events and their attribution, and the theorems about them at concrete events.
use homekey_household.Prelude.{
  inl, inr, text_eq, Text, Text, codes, lookup, none, some, List, [], ◌∷◌, pos, ◌≡◌, refl, ◌⊎◌, map,
}
use homekey_household.Const.Words.{LockState, lock_state_of}
use homekey_household.Const.Topics.{topic_lock_last, topic_status, topic_health}
use homekey_household.Models.Health.{NodeHealth}
use homekey_household.Models.Records.{LockChange}
use homekey_household.Models.Node.{Node, lock_state, new_node}
use homekey_household.Coordinator.Store.{Coordinator, Moment, ensured}
use homekey_household.Coordinator.Attribution.{attribute_lock_change, actor_for, label_of}
use homekey_household.Coordinator.Dispatch.{handle_message, handle_all}
use homekey_household.Coordinator.Handlers.{handle_lock_last, handle_health}
use homekey_household.Coordinator.LockEvents.{lock_last_shows, health_shows}
use homekey_household.Coordinator.Retained.{IsSilent, redelivered-IsSilent}
use homekey_household.Mqtt.Inbound.{HomeKeyMessage}
use homekey_household.Coordinator.Causes.{Recorded, Explained, attribute_lock_change_cases}
use homekey_household.Coordinator.Actors.{Authorised, actor_for_cases}
use homekey_household.Tests.Data.{
  program, home, gate, garage, with_json, noon, one, message, tapped, locked, fresh,
}

abbrev tap : LockChange
tap = record {
  current = pos 0;
  source = codes "homekey";
  target = none;
  timestamp = some (codes "t");
}

abbrev locked_health : NodeHealth
locked_health = record {
  network = codes "UNKNOWN";
  mqtt = codes "OK";
  nfc = codes "unknown";
  certificate = codes "unknown";
  mqtt_error = none;
  lock_current = some (pos 1);
  lock_target = none;
  backup = none;
  firmware_version = none;
  uptime = none;
  free_heap = none;
  reset_reason = none;
  security_all_ok = none;
  security_warnings = none;
}

abbrev tapped_by_artur : Node
tapped_by_artur = record (new_node gate home) {
  last_auth = some (record {
    auth_type = codes "HomeKey";
    result = codes "SUCCESS";
    timestamp = some (codes "t");
    issuer = some (codes "Artur");
  });
}

-- What the logbook says of a tap.
abbrev entries : Coordinator → List Text
entries c = map (λ e. e.message) c.logbook

abbrev after_tap : Coordinator
after_tap = handle_message (with_json tapped) noon (message topic_lock_last (codes "{}")) fresh

announced : entries after_tap ≡ codes "GATE-001 unlocked by a HomeKey credential" ∷ []
unfolding program
announced = refl

by_name : actor_for tapped_by_artur (codes "homekey") (some (codes "t")) ≡ codes "Artur"
unfolding program actor_for
by_name = refl

lock_last_shows_example :
    (n : Node) × (lookup gate (handle_lock_last (with_json tapped) noon gate tapped fresh).1.nodes
      ≡ some n)
    × (lock_state n ≡ lock_state_of (pos 0))
    × (n.health ≡ (ensured gate fresh).health)
unfolding program
lock_last_shows_example = lock_last_shows (with_json tapped) noon gate tapped fresh tap refl

health_shows_example :
    (n : Node) × (lookup gate (handle_health (with_json locked) gate locked after_tap).1.nodes
      ≡ some n)
    × (lock_state n ≡ LockState.locked)
    × (n.lock_change ≡ (ensured gate after_tap).lock_change)
unfolding program
health_shows_example = health_shows (with_json locked) gate locked after_tap locked_health refl

-- The node goes online, reports a snapshot, and another node reports a lock event of its own.
abbrev between : List (Moment × HomeKeyMessage)
between =
    (noon, message topic_status (codes "online"))
    ∷ (noon, message topic_health (codes "{}"))
    ∷ (one, record (message topic_lock_last (codes "{}")) { node_id = some garage })
    ∷ []

redelivered-IsSilent_example :
    let event = message topic_lock_last (codes "{}") in
    let d = handle_all (with_json tapped) ((noon, event) ∷ between) fresh in
    IsSilent d (handle_message (with_json tapped) one event d)
unfolding program text_eq
redelivered-IsSilent_example =
    redelivered-IsSilent (with_json tapped) noon one (message topic_lock_last (codes "{}")) between
      fresh refl refl (inr (λ e. cc), (inr (λ e. cc), (inl refl, tt)))

actor_for_cases_example :
    (¬ ((issuer : Text) × Authorised tapped_by_artur (codes "homekey") (some (codes "t")) issuer)
      × (actor_for tapped_by_artur (codes "homekey") (some (codes "t"))
          ≡ label_of (codes "homekey")))
    ⊎ Authorised tapped_by_artur
        (codes "homekey")
        (some (codes "t"))
        (actor_for tapped_by_artur (codes "homekey") (some (codes "t")))
actor_for_cases_example = actor_for_cases tapped_by_artur (codes "homekey") (some (codes "t"))

abbrev relocked : Node
relocked = record (new_node gate home) {
  lock_change = some (record tap { current = pos 1 });
  health = some locked_health;
}

attribute_lock_change_cases_example :
    (¬ Explained relocked (some (pos 0)) locked_health
      × (attribute_lock_change (with_json locked) relocked (some (pos 0)) locked_health fresh
          ≡ fresh))
    ⊎ ((e : Explained relocked (some (pos 0)) locked_health) × Recorded
          (with_json locked)
          relocked
          e.change
          fresh
          (attribute_lock_change (with_json locked) relocked (some (pos 0)) locked_health fresh))
attribute_lock_change_cases_example =
    attribute_lock_change_cases (with_json locked) relocked (some (pos 0)) locked_health fresh
