-- ===== src/Direct/Feed.antt =====
-- direct.py, `state_to_messages`: the messages are those that MQTT would have brought.
use homekey_household.Prelude.{
  Text, codes, member, Bool, true, false, Option, some, List, [], ◌∷◌, ◌++◌, All, ◌≡◌, refl,
  text_eq, subst,
}
use homekey_household.Const.Words.{
  security_states, backup_outcomes, key_lock_source, key_auth_result,
}
use homekey_household.Const.Topics.{
  node_topic, topic_status, topic_state, topic_health, topic_security, topic_backup_status,
  topic_last_auth, topic_lock_last,
}
use homekey_household.Models.Json.{Json, null, obj, Fields, get}
use homekey_household.Models.Errors.{ok}
use homekey_household.Models.Parts.{>>=-eq-ok, ok_injective}
use homekey_household.Mqtt.Topic.{is_valid_id}
use homekey_household.Mqtt.Inbound.{HomeKeyMessage, on_message, is_known}
use homekey_household.Mqtt.Filter.{on_message-node_topic}
use homekey_household.Models.Values.{Writer, truthy_json}
use homekey_household.Direct.Payloads.{
  state_to_messages, message_of, when, plain_messages, lock_messages, auth_messages, is_auth_result,
  listed_messages,
}
use homekey_household.Direct.Health.{health_from_state}

-- A message that MQTT would have brought: on the topic of the node and the message's subtopic.
abbrev pub Brought : Text → Option Text → Text → Text → HomeKeyMessage → Type 0
Brought own prefix hid nid m =
    on_message own prefix (node_topic hid nid (some m.subtopic)) m.payload m.qos m.retain ≡ some m

All-append {ℓ κ} :
    {A : Type ℓ} (P : A → Type κ) (xs ys : List A) → All P xs → All P ys → All P (xs ++ ys)
All-append P [] ys a b = b
All-append P (x ∷ xs) ys (a, as') b = (a, All-append P xs ys as' b)

module _ (w : Writer) (own : Text) (prefix : Option Text) (hid nid : Text)
    (valid_household : is_valid_id hid ≡ true) (valid_node : is_valid_id nid ≡ true) where
  All-made :
      {xs ys : List HomeKeyMessage}
      → ok xs ≡ ok ys
      → All (Brought own prefix hid nid) xs
      → All (Brought own prefix hid nid) ys
  All-made e = subst (All (Brought own prefix hid nid)) (ok_injective e)

  brought :
      (sub payload : Text) (retain : Bool)
      → is_known sub ≡ true
      → Brought own prefix hid nid (message_of w hid nid sub payload retain)
  brought sub payload retain known =
      on_message-node_topic own prefix hid nid sub payload 0 retain valid_household valid_node known

  All-when :
      (test : Bool) (m : HomeKeyMessage)
      → Brought own prefix hid nid m
      → All (Brought own prefix hid nid) (when w test m)
  All-when true m b = (b, tt)
  All-when false m b = tt

  All-plain :
      (v : Json) (words : List Text) (message : Text → HomeKeyMessage)
      → ((t : Text) → Brought own prefix hid nid (message t))
      → All (Brought own prefix hid nid) (plain_messages w v words message)
  unfolding plain_messages
  All-plain (Json.str s) words message b = All-when (member s words) (message s) (b s)
  All-plain null words message b = tt
  All-plain (Json.bool x) words message b = tt
  All-plain (Json.int n) words message b = tt
  All-plain (Json.float x) words message b = tt
  All-plain (Json.arr vs) words message b = tt
  All-plain (obj fs) words message b = tt

  All-lock :
      (v : Json) (message : Text → HomeKeyMessage)
      → ((t : Text) → Brought own prefix hid nid (message t))
      → All (Brought own prefix hid nid) (lock_messages w v message)
  unfolding lock_messages
  All-lock (obj fs) message b = All-when (truthy_json (get fs key_lock_source)) _ (b _)
  All-lock null message b = tt
  All-lock (Json.str s) message b = tt
  All-lock (Json.bool x) message b = tt
  All-lock (Json.int n) message b = tt
  All-lock (Json.float x) message b = tt
  All-lock (Json.arr vs) message b = tt

  All-auth :
      (v : Json) (message : Text → HomeKeyMessage) (messages : List HomeKeyMessage)
      → ((t : Text) → Brought own prefix hid nid (message t))
      → auth_messages w v message ≡ ok messages
      → All (Brought own prefix hid nid) messages
  unfolding auth_messages
  All-auth (obj fs) message messages b h =
      let payload = w.dumps (obj fs) in
      let (known, _, made) =
        >>=-eq-ok (is_auth_result w (get fs key_auth_result))
          (λ known. ok (when w known (message payload))) h in
      All-made made (All-when known (message payload) (b payload))
  All-auth null message messages b h = All-made h tt
  All-auth (Json.str s) message messages b h = All-made h tt
  All-auth (Json.bool x) message messages b h = All-made h tt
  All-auth (Json.int n) message messages b h = All-made h tt
  All-auth (Json.float x) message messages b h = All-made h tt
  All-auth (Json.arr vs) message messages b h = All-made h tt

  All-listed :
      (state info health : Fields) (auth : List HomeKeyMessage)
      → All (Brought own prefix hid nid) auth
      → All (Brought own prefix hid nid) (listed_messages w state info hid nid health auth)
  unfolding listed_messages is_known member text_eq
  All-listed state info health auth all_auths =
      let B = Brought own prefix hid nid in
      let message = message_of w hid nid in
      (
        brought topic_status (codes "online") true refl,
        All-append B
            (lock_messages w (get state (codes "lock_last"))
              (λ payload. message topic_lock_last payload true))
            _
            (All-lock (get state (codes "lock_last"))
              (λ payload. message topic_lock_last payload true)
              (λ t. brought topic_lock_last t true refl))
            (
              brought topic_state _ true refl,
              (
                brought topic_health (w.dumps (obj health)) false refl,
                All-append B
                    (plain_messages w (get state (codes "security")) security_states
                      (λ word. message topic_security word true))
                    _
                    (All-plain (get state (codes "security")) security_states
                      (λ word. message topic_security word true)
                      (λ t. brought topic_security t true refl))
                    (All-append B
                      (plain_messages w (get state (codes "backup_status")) backup_outcomes
                        (λ word. message topic_backup_status word true))
                      auth
                      (All-plain (get state (codes "backup_status")) backup_outcomes
                        (λ word. message topic_backup_status word true)
                        (λ t. brought topic_backup_status t true refl))
                      all_auths),
              ),
            ),
      )

  -- For a valid household and a valid node, each message that is made of the node's answer is one that
  -- MQTT would have brought: published on the node's topic of its subtopic, its payload is delivered
  -- as that message and no other.
  pub state_to_messages-on_message :
      (state info : Fields) (messages : List HomeKeyMessage)
      → state_to_messages w state info hid nid ≡ ok messages
      → All (Brought own prefix hid nid) messages
  unfolding state_to_messages is_known member text_eq
  state_to_messages-on_message state info messages h =
      let message : Text → HomeKeyMessage =
        λ payload. message_of w hid nid topic_last_auth payload true in
      let (health, _, h1) = >>=-eq-ok (health_from_state state) _ h in
      let (auth, read, made) =
        >>=-eq-ok (auth_messages w (get state (codes "last_auth")) message)
          (λ auth. ok (listed_messages w state info hid nid health auth)) h1 in
      All-made made (
        All-listed state info health auth (
          All-auth (get state (codes "last_auth")) message auth
            (λ t. brought topic_last_auth t true refl) read))
