-- ===== src/Mqtt/Publishing.antt =====
-- What `async_publish_authenticated_command` publishes, and when it refuses.
use homekey_household.Prelude.{
  Text, text_eq, member, truthy, lookup, true, false, Option, none, some, [], ◌∷◌, ◌++◌,
  text_eq_iff, ℤ, ◌≡◌, sym, ap, ◌⊎◌, inl, inr, arith, Bool-cases, append-nil,
}
use homekey_household.Const.Topics.{action_lock, action_unlock, command_actions, node_topic}
use homekey_household.Models.Json.{Json}
use homekey_household.Models.Errors.{Error, ok, raise, credential_unavailable, unsupported_action}
use homekey_household.Command.Encoding.{Bytes, encode_utf8, canonical_input}
use homekey_household.Command.Nonces.{NonceTracker, is_plausible}
use homekey_household.Command.Build.{
  Crypto, Draws, AuthenticatedCommand, to_dict, actions, build_command, sign, make_command_mac,
  choose_nonce,
}
use homekey_household.Mqtt.Outbound.{MqttClient, command_subtopic, publish_command}
use homekey_household.Coordinator.Effects.{Result-cases}

-- The node's check of a command: it computes the MAC anew, over the fields of the payload and the
-- action of the topic.
pub record Verifies (crypto : Crypto) (key : Bytes) (subtopic : Text) (c : AuthenticatedCommand)
    : Type 0 where
  pub action : Text
  pub of_topic : lookup subtopic command_actions ≡ some action
  pub message : Bytes
  pub encoded : encode_utf8 (canonical_input c.ts c.nonce c.req_id action) ≡ ok message
  pub authentic : c.mac ≡ crypto.hmac_hex key message
  pub nonce : is_plausible c.nonce ≡ true

sign-mac :
    (crypto : Crypto) (key : Bytes) (action : Text) (ts : ℤ) (nonce req_id : Text)
    (c : AuthenticatedCommand)
    → sign crypto key action ts nonce req_id ≡ ok c
    → (message : Bytes) × (encode_utf8 (canonical_input c.ts c.nonce c.req_id action) ≡ ok message)
      × (c.mac ≡ crypto.hmac_hex key message)
      × (is_plausible c.nonce ≡ true)
      × (member action actions ≡ true)
unfolding sign make_command_mac
sign-mac crypto key action ts nonce req_id c h =
    elim (Result-cases (encode_utf8 (canonical_input ts nonce req_id action))) [
      | inr (e, failed) ↦ absurd (ground arith)
      | inl (message, encoded) ↦ (message, ground arith, ground arith, ground arith, ground arith)
    ]

build_command-sign :
    (crypto : Crypto) (draws : Draws) (key : Bytes) (action : Text) (ts : Option ℤ)
    (tracker : Option NonceTracker) (c : AuthenticatedCommand)
    → (build_command crypto draws key action ts none none tracker).0 ≡ ok c
    → (time : ℤ) × (nonce : Text) × (req_id : Text) × (sign crypto key action time nonce req_id
        ≡ ok c)
unfolding build_command
build_command-sign crypto draws key action ts tracker c h =
    elim (Bool-cases (member action actions)) [
      | inr unknown ↦ absurd (cc (rw (unknown, build_command) at h))
      | inl known ↦ elim (Bool-cases (truthy key)) [
        | inr empty ↦ absurd (cc (rw (known, empty) at h))
        | inl full ↦ elim (Result-cases (choose_nonce crypto draws none tracker).0) [
          | inr (e, failed) ↦ absurd (cc (rw (known, full, failed) at h))
          | inl (nonce, chosen) ↦ (_, nonce, _, rw (known, full, chosen) at h)
        ]
      ]
    ]

-- The action of a command's topic is the one that was asked for.
action_of_topic :
    (action : Text)
    → member action actions ≡ true
    → lookup (command_subtopic action) command_actions ≡ some action
unfolding command_subtopic lookup member
action_of_topic action known = elim (Bool-cases (text_eq action action_lock)) [
  | inl lock ↦ rw lock (unfold text_eq in ap some (sym ((text_eq_iff action action_lock).0 lock)))
  | inr other ↦ rw other (
      unfold text_eq in
      ap some (
        sym (
          (text_eq_iff action action_unlock).0 (
            ground (
              arith,
              text_eq_iff action_lock action,
              text_eq_iff action action_lock,
              text_eq_iff action_unlock action,
              text_eq_iff action action_unlock,
            )))))
]

module _ (crypto : Crypto) (dumps : Json → Text) where
  -- A call that returns a command.
  pub record Published (household_id node_id action : Text) (key : Bytes) (c c' : MqttClient)
      (command : AuthenticatedCommand) : Type 0 where
    pub once :
        c'.published
        ≡ c.published
          ++ (record {
            topic = node_topic household_id node_id (some (command_subtopic action));
            payload = dumps (to_dict command);
            qos = 1;
            retain = false;
          }
              ∷ [])
    pub verifies : Verifies crypto key (command_subtopic action) command

  -- A call that returns a command has published it, once, on the command topic of its node and its
  -- action, at QoS 1 and not retained; and the node's check accepts it: its MAC is the one of its
  -- fields and of the action of the topic, under the key that was given.
  pub publish_command_ok :
      (draws : Draws) (household_id node_id : Text) (key : Bytes) (action : Text) (ts : Option ℤ)
      (c : MqttClient) (command : AuthenticatedCommand)
      → (publish_command crypto dumps draws household_id node_id key action ts c).0 ≡ ok command
      → Published household_id node_id action key c
          (publish_command crypto dumps draws household_id node_id key action ts c).1
          command
  unfolding publish_command
  publish_command_ok draws household_id node_id key action ts c command h =
      elim (Bool-cases (truthy key)) [
        | inr empty ↦ absurd (cc (rw (empty, publish_command) at h))
        | inl full ↦ elim (Bool-cases (member action actions)) [
          | inr unknown ↦ absurd (cc (rw (full, unknown) at h))
          | inl known ↦
              let built : (build_command crypto draws key action ts none none (some c.nonces)).0
                  ≡ ok command =
                rw (full, known) at h in
              let (time, nonce, id, signed) =
                build_command-sign crypto draws key action ts (some c.nonces) command built in
              let (message, encoded, authentic, plausible, asked) =
                sign-mac crypto key action time nonce id command signed in
              record {
                once = rw (full, known, built);
                verifies = record {
                  action = action;
                  of_topic = action_of_topic action known;
                  message = message;
                  encoded = encoded;
                  authentic = authentic;
                  nonce = plausible;
                };
              }
        ]
      ]

  -- A call that raises has published nothing.
  pub publish_command_raise :
      (draws : Draws) (household_id node_id : Text) (key : Bytes) (action : Text) (ts : Option ℤ)
      (c : MqttClient) (e : Error)
      → (publish_command crypto dumps draws household_id node_id key action ts c).0 ≡ raise e
      → (publish_command crypto dumps draws household_id node_id key action ts c).1.published
        ≡ c.published
  unfolding publish_command
  publish_command_raise draws household_id node_id key action ts c e h =
      elim (Bool-cases (truthy key)) [
        | inr empty ↦ rw empty
        | inl full ↦ elim (Bool-cases (member action actions)) [
          | inr unknown ↦ rw (full, unknown)
          | inl known ↦
              let built : (build_command crypto draws key action ts none none (some c.nonces)).0
                  ≡ raise e =
                rw (full, known) at h in
              rw (full, known, built) (append-nil c.published)
        ]
      ]

  -- Without a key, or for an action other than lock and unlock, a call raises, publishes nothing and
  -- uses no nonce.
  pub publish_command_refuses :
      (draws : Draws) (household_id node_id : Text) (key : Bytes) (action : Text) (ts : Option ℤ)
      (c : MqttClient)
      → (truthy key ≡ false) ⊎ (member action actions ≡ false)
      → (e : Error) × (publish_command crypto dumps draws household_id node_id key action ts c
          ≡ (raise e, c))
  unfolding publish_command
  publish_command_refuses draws household_id node_id key action ts c h =
      elim (Bool-cases (truthy key)) [
        | inr empty ↦ (credential_unavailable, rw empty)
        | inl full ↦
            let unknown : member action actions ≡ false = ground arith in
            (unsupported_action, rw (full, unknown))
      ]
