-- ===== src/Control/Sending.antt =====
-- coordinator.py: the command helpers of the coordinator.
use homekey_household.Prelude.{
  Text, truthy, text_eq, Bool, true, false, ◌||◌, Option, none, some, [], if◌then◌else◌,
}
use homekey_household.Const.Topics.{action_lock, action_unlock}
use homekey_household.Models.Json.{Json}
use homekey_household.Models.Errors.{
  Result, ok, raise, credential_unavailable, client_unavailable, unsupported_action,
}
use homekey_household.Models.Values.{Writer}
use homekey_household.Command.Encoding.{Bytes}
use homekey_household.Command.Build.{Crypto, Draws, AuthenticatedCommand}
use homekey_household.Mqtt.Outbound
use homekey_household.Mqtt.Outbound.{MqttClient}
use homekey_household.Coordinator.Store.{Platform}
use homekey_household.Direct.Client.{Exchange}
use homekey_household.Direct.Connect.{Client, Traced}
use homekey_household.Direct.Commands
use homekey_household.Direct.Poller.{Poller, Poll, poll_once}

-- The direct poller of an entry, with its client.
pub record DirectNode : Type 0 where
  pub client : Client
  pub poller : Poller

-- What a coordinator sends with. `provider` is `command_key_provider`, with the key that it gives.
pub record Controller : Type 0 where
  pub household_id : Text
  pub provider : Option (Option Bytes)
  pub mqtt : Option MqttClient
  pub direct : Option DirectNode

abbrev pub key_if : Option Bytes → Option Bytes
key_if none = none
key_if (some key) = if truthy key then some key else none

-- `command_key`
unfoldable pub command_key : Controller → Option Bytes
command_key c = elim c.provider [ none ↦ none | some key ↦ key_if key ]

unfoldable pub is_some {ℓ} : {A : Type ℓ} → Option A → Bool
is_some none = false
is_some (some v) = true

-- `command_control_enabled`
unfoldable pub command_control_enabled : Controller → Bool
unfolding command_key is_some
command_control_enabled c = is_some c.direct || is_some (command_key c)

-- `guest_manageable`
unfoldable pub guest_manageable : Controller → Bool
unfolding is_some
guest_manageable c = is_some c.direct

-- What a command that was delivered returns.
pub data Delivery : Type 0 where
  published : AuthenticatedCommand → Delivery
  answered : Json → Delivery

-- The libraries, and what one command meets: the draws of its nonce, the end of its request, and the
-- poll that follows.
pub record Attempt : Type 0 where
  pub crypto : Crypto
  pub dumps : Json → Text
  pub platform : Platform
  pub writer : Writer
  pub draws : Draws
  pub answer : Exchange
  pub poll : Poll

-- The requests that were sent, how the call ended, and the controller after it.
abbrev pub Outcome {ℓ} : Type ℓ → Type ℓ
Outcome A = Traced A × Controller

-- The follow-up poll: whatever it raises is swallowed.
unfoldable pub refreshed : Attempt → DirectNode → Controller → Controller
unfolding poll_once
refreshed t d c = record c {
  direct = some (record d { poller = (poll_once t.platform t.writer t.poll d.poller).1 });
}

-- After a request, the node is read again when the request succeeded.
abbrev pub then_refresh {ℓ} :
    {A : Type ℓ} → Attempt → DirectNode → (Json → A) → Traced Json → Controller → Outcome A
then_refresh t d f (sent, raise e) c = ((sent, raise e), c)
then_refresh t d f (sent, ok v) c = ((sent, ok (f v)), refreshed t d c)

-- `_async_send_direct_command`
unfoldable pub send_direct : Attempt → DirectNode → Text → Controller → Outcome Delivery
unfolding refreshed Commands.lock
send_direct t d action c =
    if text_eq action action_lock || text_eq action action_unlock
    then then_refresh t d Delivery.answered (Commands.lock d.client action t.answer) c
    else (([], raise unsupported_action), c)

abbrev pub delivered : Result AuthenticatedCommand → Result Delivery
delivered (raise e) = raise e
delivered (ok command) = ok (Delivery.published command)

-- A call of the MQTT client, which keeps what it published and its nonces.
abbrev pub through_mqtt : Result AuthenticatedCommand × MqttClient → Controller → Outcome Delivery
through_mqtt (r, m) c = (([], delivered r), record c { mqtt = some m })

unfoldable pub send_mqtt :
    Attempt → Text → Text → Bytes → Option MqttClient → Controller → Outcome Delivery
unfolding Outbound.lock Outbound.unlock
send_mqtt t node_id action key none c = (([], raise client_unavailable), c)
send_mqtt t node_id action key (some m) c =
    if text_eq action action_lock
    then through_mqtt (Outbound.lock t.crypto t.dumps t.draws c.household_id node_id key none m) c
    else through_mqtt (Outbound.unlock t.crypto t.dumps t.draws c.household_id node_id key none m) c

unfoldable pub send_keyed : Attempt → Text → Text → Option Bytes → Controller → Outcome Delivery
unfolding send_mqtt
send_keyed t node_id action none c = (([], raise credential_unavailable), c)
send_keyed t node_id action (some key) c = send_mqtt t node_id action key c.mqtt c

unfoldable pub send_over : Attempt → Text → Text → Option DirectNode → Controller → Outcome Delivery
unfolding send_direct send_keyed command_key
send_over t node_id action (some d) c = send_direct t d action c
send_over t node_id action none c = send_keyed t node_id action (command_key c) c

-- `async_send_lock_command`
unfoldable pub send_lock_command : Attempt → Text → Text → Controller → Outcome Delivery
unfolding send_over
send_lock_command t node_id action c = send_over t node_id action c.direct c
