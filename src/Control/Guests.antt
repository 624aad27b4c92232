-- ===== src/Control/Guests.antt =====
-- coordinator.py and guest.py: the guest commands, and the services that call them.
use homekey_household.Prelude.{
  Text, codes, truthy, strip, Dict, lookup, Bool, Option, none, some, [], ◌∷◌, ℤ, if◌then◌else◌,
}
use homekey_household.Models.Json.{Json, null, str, arr, obj, Fields, get}
use homekey_household.Models.Errors.{
  Result, ok, raise, ◌>>=◌, client_unavailable, service_error, unexpected,
}
use homekey_household.Models.Values.{Writer, or_json, truthy_json, text_of}
use homekey_household.Direct.Connect.{Client, Traced}
use homekey_household.Direct.Commands
use homekey_household.Direct.Commands.{Lesson}
use homekey_household.Control.Sending.{
  Controller, DirectNode, Attempt, Outcome, then_refresh, refreshed,
}

abbrev same : Json → Json
same v = v

-- A call over the direct transport, or `_guest_poller`'s refusal where there is none.
abbrev pub over_direct :
    Attempt → (Client → Traced Json) → Option DirectNode → Controller → Outcome Json
over_direct t send none c = (([], raise client_unavailable), c)
over_direct t send (some d) c = then_refresh t d same (send d.client) c

-- `async_set_guest_access`, of the validity in whole seconds: `int(round(days * 86400))` is a float's
-- affair.
unfoldable pub set_guest_access : Attempt → Option Bool → Option ℤ → Controller → Outcome Json
unfolding refreshed Commands.set_guest_config
set_guest_access t enabled seconds c =
    over_direct t (λ client. Commands.set_guest_config client enabled seconds t.answer) c.direct c

-- `async_teach_guest_tag`
unfoldable pub teach_guest_tag : Attempt → Option Text → Option Json → Controller → Outcome Json
unfolding refreshed Commands.guest_teach
teach_guest_tag t label valid_days c =
    over_direct t
      (λ client.
        Commands.guest_teach client
          (record { label = label; valid_days = valid_days; valid_from = none; valid_until = none })
          t.answer)
      c.direct c

-- `async_revoke_guest_tag`
unfoldable pub revoke_guest_tag : Attempt → Text → Controller → Outcome Json
unfolding refreshed Commands.guest_revoke
revoke_guest_tag t tag_id c =
    over_direct t (λ client. Commands.guest_revoke client tag_id t.answer) c.direct c

-- `async_cancel_guest_write`
unfoldable pub cancel_guest_write : Attempt → Controller → Outcome Json
unfolding refreshed Commands.guest_cancel
cancel_guest_write t c = over_direct t (λ client. Commands.guest_cancel client t.answer) c.direct c

-- The runtimes of the entries that are set up: the values of `hass.data[DOMAIN]` that have a
-- coordinator.
abbrev pub Runtimes : Type 0
Runtimes = Dict Controller

-- One entry of one.
unfoldable pub only_one : Runtimes → Result (Text × Controller)
only_one [] = raise service_error
only_one (entry ∷ []) = ok entry
only_one (entry ∷ other ∷ rest) = raise service_error

abbrev pub named_entry : Text → Option Controller → Result (Text × Controller)
named_entry entry_id none = raise service_error
named_entry entry_id (some c) = ok (entry_id, c)

-- `runtimes.get(requested)`: a value that is no text names no entry, or cannot be a key.
unfoldable pub entry_named : Json → Runtimes → Result (Text × Controller)
entry_named (str s) runtimes = named_entry s (lookup s runtimes)
entry_named (arr vs) runtimes = raise unexpected
entry_named (obj fs) runtimes = raise unexpected
entry_named _ runtimes = raise service_error

-- `_runtime_for`
unfoldable pub runtime_for : Json → Runtimes → Result (Text × Controller)
unfolding only_one entry_named truthy_json
runtime_for requested [] = raise service_error
runtime_for requested (entry ∷ rest) =
    if truthy_json requested then entry_named requested (entry ∷ rest) else only_one (entry ∷ rest)

abbrev pub named_node : Option Text → Result Text
named_node none = raise service_error
named_node (some node_id) = if truthy node_id then ok node_id else raise service_error

abbrev pub node_of_direct : Option DirectNode → Result Text
node_of_direct none = raise service_error
node_of_direct (some d) = named_node d.poller.node_id

-- `_node_id_for`
unfoldable pub node_id_for : Controller → Result Text
node_id_for c = node_of_direct c.direct

-- Whatever the coordinator raises is shown to the caller.
abbrev pub shown_error {ℓ} : {A : Type ℓ} → Outcome A → Outcome A
shown_error ((sent, raise e), c) = ((sent, raise service_error), c)
shown_error ((sent, ok v), c) = ((sent, ok v), c)

-- What a service call did: to which entry, and how it ended.
abbrev pub Called : Type 0
Called = Result (Text × Outcome Json)

unfoldable pub on_node : (Controller → Result (Outcome Json)) → Result (Text × Controller) → Called
unfolding node_id_for
on_node act found = do
  (entry_id, c) ← found
  node_id ← node_id_for c
  outcome ← act c
  ok (entry_id, outcome)

-- `str(call.data.get(key) or "").strip()`
unfoldable pub stripped : Writer → Fields → Text → Text
unfolding or_json truthy_json text_of strip
stripped w call key = strip (text_of w (or_json (get call key) (str [])))

-- `label or None`
abbrev pub text_if : Text → Option Text
text_if [] = none
text_if (c ∷ s) = some (c ∷ s)

-- `call.data.get("config_entry_id")`
unfoldable pub requested_entry : Fields → Json
requested_entry call = get call (codes "config_entry_id")

-- `_teach`; `to_float` is `float(raw_days)`, which is called before anything is sent.
unfoldable pub teach : Attempt → (Json → Result Json) → Fields → Runtimes → Called
unfolding runtime_for on_node stripped requested_entry teach_guest_tag
teach t to_float call runtimes =
    on_node
      (λ c. do
        days ← elim (get call (codes "valid_days")) [
          | null ↦ ok none
          | raw ↦ to_float raw >>= (λ x. ok (some x))
        ]
        ok (
            shown_error
              (teach_guest_tag t (text_if (stripped t.writer call (codes "label"))) days c)))
      (runtime_for (requested_entry call) runtimes)

-- `_revoke`
unfoldable pub revoke : Attempt → Fields → Runtimes → Called
unfolding runtime_for on_node stripped requested_entry revoke_guest_tag
revoke t call runtimes =
    on_node
      (λ c.
        let tag_id = stripped t.writer call (codes "tag_id") in
        if truthy tag_id
        then ok (shown_error (revoke_guest_tag t tag_id c))
        else raise service_error)
      (runtime_for (requested_entry call) runtimes)

-- `_cancel`
unfoldable pub cancel : Attempt → Fields → Runtimes → Called
unfolding runtime_for on_node requested_entry cancel_guest_write
cancel t call runtimes =
    on_node (λ c. ok (shown_error (cancel_guest_write t c)))
      (runtime_for (requested_entry call) runtimes)
