-- ===== src/Mqtt/Filter.antt =====
-- Which broker messages reach the coordinator.
use homekey_household.Prelude.{
  ℕ, Text, text_eq, member, truthy, Bool, true, false, not, member-all, Option, none, some, [], ◌∷◌,
  ◌++◌, ◌≡◌, refl, ◌⊎◌, inl, inr, arith, Bool-cases, Option-cases,
}
use homekey_household.Const.Topics.{
  reserved_topics, json_subtopics, plain_subtopics, kind_legacy_status, node_base, node_topic,
  action_lock,
}
use homekey_household.Mqtt.Topic.{ParsedTopic, is_valid_id, household_topic, parse_topic}
use homekey_household.Mqtt.Inbound.{HomeKeyMessage, is_known, accept, on_message}
use homekey_household.Mqtt.Outbound.{command_subtopic}
use homekey_household.Mqtt.RoundTrip.{OfHousehold, parse_topic-node_topic, parse_topic_sound}

-- A known subtopic is not empty.
known_not_empty : (s : Text) → is_known s ≡ true → truthy s ≡ true
unfolding is_known member text_eq
known_not_empty [] h = cc
known_not_empty (c ∷ s) h = refl

known_not_reserved : (s : Text) → is_known s ≡ true → member s reserved_topics ≡ false
unfolding is_known member text_eq
known_not_reserved s h = elim (Bool-cases (member s json_subtopics)) [
  | inl json ↦ not_true (member-all free s json_subtopics refl json)
  | inr other ↦ not_true (member-all free s plain_subtopics refl (ground arith))
]
  where
    free : Text → Bool
    free t = not (member t reserved_topics)

    not_true : {b : Bool} → not b ≡ true → b ≡ false
    not_true {b} e = ground arith

-- A message on the topic of a valid node, with a subtopic of the contract, is delivered as it is.
pub on_message-node_topic :
    (own : Text) (prefix : Option Text) (hid nid sub payload : Text) (qos : ℕ) (retain : Bool)
    → is_valid_id hid ≡ true
    → is_valid_id nid ≡ true
    → is_known sub ≡ true
    → on_message own prefix (node_topic hid nid (some sub)) payload qos retain
      ≡ some (record {
        household_id = hid;
        subtopic = sub;
        payload = payload;
        node_id = some nid;
        qos = qos;
        retain = retain;
        legacy = false;
      })
unfolding on_message is_valid_id
on_message-node_topic own prefix hid nid [] payload qos retain vh vn known =
    absurd (cc (known_not_empty [] known))
on_message-node_topic own prefix [] nid (c ∷ sub) payload qos retain vh vn known = absurd (cc vh)
on_message-node_topic own prefix (d ∷ hid) nid (c ∷ sub) payload qos retain vh vn known = rw (
  parse_topic-node_topic (d ∷ hid) nid c sub prefix vh vn,
  known_not_reserved (c ∷ sub) known,
  known,
)

-- A command is never taken for a message: the topic of either command is ignored, whoever published
-- on it.
pub on_message-command :
    (own : Text) (prefix : Option Text) (hid nid action payload : Text) (qos : ℕ) (retain : Bool)
    → is_valid_id hid ≡ true
    → is_valid_id nid ≡ true
    → on_message own prefix (node_topic hid nid (some (command_subtopic action))) payload qos retain
      ≡ none
unfolding on_message command_subtopic member text_eq
on_message-command own prefix hid nid action payload qos retain vh vn =
    elim (Bool-cases (text_eq action action_lock)) [
      | inl lock ↦ rw (lock, parse_topic-node_topic hid nid b'c' _ prefix vh vn)
      | inr unlock ↦ rw (unlock, parse_topic-node_topic hid nid b'c' _ prefix vh vn)
    ]

-- A message of the household namespace as it was published.
pub record Delivered (topic payload : Text) (qos : ℕ) (retain : Bool) (m : HomeKeyMessage)
    : Type 0 where
  pub node : Text
  pub names : m.node_id ≡ some node
  pub valid_household : is_valid_id m.household_id ≡ true
  pub valid_node : is_valid_id node ≡ true
  pub built : topic ≡ node_base m.household_id node ++ (b'/' ∷ m.subtopic)
  pub known : is_known m.subtopic ≡ true
  pub text : m.payload ≡ payload
  pub quality : m.qos ≡ qos
  pub retained : m.retain ≡ retain
  pub modern : m.legacy ≡ false

-- The availability of the broker connection, read as the own household's.
pub record Availability (own payload : Text) (m : HomeKeyMessage) : Type 0 where
  pub kind : m.subtopic ≡ kind_legacy_status
  pub household : m.household_id ≡ own
  pub text : m.payload ≡ payload
  pub old : m.legacy ≡ true

accept-legacy :
    (own payload : Text) (qos : ℕ) (retain : Bool) (parsed : ParsedTopic) (m : HomeKeyMessage)
    → accept own parsed payload qos retain ≡ some m
    → parsed.legacy ≡ true
    → Availability own payload m
unfolding accept
accept-legacy own payload qos retain parsed m h old = record {
  kind = ground arith;
  household = ground arith;
  text = ground arith;
  old = ground arith;
}

accept-household :
    (own payload : Text) (qos : ℕ) (retain : Bool) (hid nid sub : Text) (m : HomeKeyMessage)
    → is_valid_id hid ≡ true
    → accept own (household_topic hid nid sub) payload qos retain ≡ some m
    → (is_known sub ≡ true)
      × (m ≡ record {
        household_id = hid;
        subtopic = sub;
        payload = payload;
        node_id = some nid;
        qos = qos;
        retain = retain;
        legacy = false;
      })
unfolding accept is_valid_id
accept-household own payload qos retain [] nid sub m v h = absurd (cc v)
accept-household own payload qos retain (d ∷ hid) nid sub m v h =
    elim (Bool-cases (member sub reserved_topics)) [
      | inl reserved ↦ absurd (ground arith)
      | inr usable ↦ elim (Bool-cases (is_known sub)) [
        | inr unknown ↦ absurd (ground arith)
        | inl known ↦ (known, ground arith)
      ]
    ]

accept-modern :
    (own topic payload : Text) (qos : ℕ) (retain : Bool) (parsed : ParsedTopic) (m : HomeKeyMessage)
    → accept own parsed payload qos retain ≡ some m
    → OfHousehold topic parsed
    → Delivered topic payload qos retain m
accept-modern own topic payload qos retain parsed m h o =
    let (known, is) =
      accept-household own payload qos retain o.household_id o.node_id o.subtopic m
        o.valid_household (rw o.is at h) in
    rw is (record {
      node = o.node_id;
      names = refl;
      valid_household = o.valid_household;
      valid_node = o.valid_node;
      built = o.built;
      known = known;
      text = refl;
      quality = refl;
      retained = refl;
      modern = refl;
    })

-- What reaches the coordinator is a known subtopic of a node with a valid id in a household with one,
-- on the topic that these build, with the payload and the flags of the publication; or it is the
-- availability of the broker connection, for the own household.
pub on_message_sound :
    (own : Text) (prefix : Option Text) (topic payload : Text) (qos : ℕ) (retain : Bool)
    (m : HomeKeyMessage)
    → on_message own prefix topic payload qos retain ≡ some m
    → Delivered topic payload qos retain m ⊎ Availability own payload m
unfolding on_message
on_message_sound own prefix topic payload qos retain m h =
    elim (Option-cases (parse_topic topic prefix)) [
      | inl unrelated ↦ absurd (ground arith)
      | inr (parsed, found) ↦ elim (Bool-cases parsed.legacy) [
        | inl old ↦ inr (accept-legacy own payload qos retain parsed m (rw found at h) old)
        | inr modern ↦ inl (
            accept-modern own topic payload qos retain parsed m (rw found at h)
              (parse_topic_sound topic prefix parsed found modern))
      ]
    ]
