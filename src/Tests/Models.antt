-- ===== src/Tests/Models.antt =====
-- The payload theorems at concrete payloads.
use homekey_household.Prelude.{codes, none, some, pos}
use homekey_household.Models.State.{NodeState}
use homekey_household.Models.Health.{NodeHealth}
use homekey_household.Models.Records.{LockChange}
use homekey_household.Tests.Data.{home, gate}

abbrev gate_state : NodeState
gate_state = record {
  household_id = home;
  node_id = gate;
  node_name = codes "Gate";
  node_role = codes "other";
  node_state = codes "UNKNOWN";
  generation = none;
  firmware_version = none;
}

abbrev gate_health : NodeHealth
gate_health = record {
  network = codes "UNKNOWN";
  mqtt = codes "OK";
  nfc = codes "unknown";
  certificate = codes "unknown";
  mqtt_error = none;
  lock_current = some (pos 1);
  lock_target = none;
  backup = none;
  firmware_version = none;
  uptime = none;
  free_heap = none;
  reset_reason = none;
  security_all_ok = none;
  security_warnings = none;
}

abbrev tap_event : LockChange
tap_event = record {
  current = pos 0;
  source = codes "homekey";
  target = none;
  timestamp = some (codes "t");
}
