-- ===== src/Setup/Start.antt =====
-- __init__.py, `_async_start_direct`: the node of an entry is verified, and read once.
use homekey_household.Prelude.{text_eq, List, if◌then◌else◌}
use homekey_household.Models.Errors.{
  Error, Result, ok, raise, auth_failed, tls_unavailable, protocol_error, no_household,
  fingerprint_mismatch, transport_failed,
}
use homekey_household.Models.Values.{Writer}
use homekey_household.Command.Encoding.{Bytes}
use homekey_household.Coordinator.Store.{Platform, Coordinator}
use homekey_household.Direct.Connect.{Client, Sent, Peer, Probe, connect_node}
use homekey_household.Direct.Poller.{Poller, Poll, new_poller, poll_safely}
use homekey_household.Control.Sending.{DirectNode}
use homekey_household.Setup.Flow.{DirectEntry}

-- How a start that fails is reported to Home Assistant: `ConfigEntryAuthFailed`, `ConfigEntryError`,
-- `ConfigEntryNotReady`, or an exception that is not mapped.
pub data StartError : Type 0 where
  reauthenticate refused not_ready : StartError
  unmapped : Error → StartError

unfoldable pub start_error : Error → StartError
start_error auth_failed = StartError.reauthenticate
start_error fingerprint_mismatch = StartError.refused
start_error no_household = StartError.refused
start_error protocol_error = StartError.refused
start_error tls_unavailable = StartError.not_ready
start_error transport_failed = StartError.not_ready
start_error e = StartError.unmapped e

pub data Start : Type 0 where
  failed : StartError → Start
  started : DirectNode → Start

-- The first reading, after which the poller is there.
abbrev pub polled : Client → Result (Unit {0}) × Poller → Start
polled client (raise e, q) = Start.failed (StartError.unmapped e)
polled client (ok u, q) = Start.started (record { client = client; poller = q })

module _ (p : Platform) (w : Writer) (sha256 : Bytes → Bytes) where
  unfoldable pub begin : Coordinator → Poll → Result Probe → Start
  unfolding start_error poll_safely new_poller
  begin c first (raise e) = Start.failed (start_error e)
  begin c first (ok probe) =
      if text_eq probe.household_id c.household_id
      then polled probe.client (poll_safely p w first (new_poller c.household_id c))
      else Start.failed StartError.refused

  -- `_async_start_direct`
  unfoldable pub start_direct : DirectEntry → Coordinator → Peer → Poll → List Sent × Start
  unfolding connect_node begin
  start_direct e c peer first =
      let t = connect_node w sha256 e.host e.port e.fingerprint e.username e.password peer in
      (t.0, begin c first t.1)
