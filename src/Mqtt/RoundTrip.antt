-- ===== src/Mqtt/RoundTrip.antt =====
-- The topics that `node_topic` builds are the ones that `parse_topic` reads, and the other way round.
use homekey_household.Prelude.{
  ℕ, Text, text_eq, text_eq_iff, text_eq_self, all, free_of, split, join, split_part, join-split,
  true, false, not, ◌==◌, Option, some, List, [], ◌∷◌, ◌++◌, ◌≡◌, refl, sym, ◌∙◌, ap, ap₂, if_some,
  and_true, inl, inr, arith, Bool-cases, append_assoc,
}
use homekey_household.Const.Words.{id_safe_chars}
use homekey_household.Const.Topics.{topic_root, topic_household, topic_nodes, node_base, node_topic}
use homekey_household.Models.Validators.{char_in}
use homekey_household.Mqtt.Topic.{
  ParsedTopic, is_valid_id, household_topic, parse_node, parse_household, parse_legacy, parse_topic,
}

-- No character of the safe alphabet is a slash.
safe_char : (c : ℕ) → char_in id_safe_chars c ≡ true → not (c == b'/') ≡ true
unfolding char_in
safe_char c h = ground arith

safe_text : (s : Text) → all (char_in id_safe_chars) s ≡ true → free_of b'/' s ≡ true
safe_text [] h = refl
safe_text (c ∷ s) h = ground (arith, safe_char c, safe_text s)

valid_id-free : (s : Text) → is_valid_id s ≡ true → free_of b'/' s ≡ true
unfolding is_valid_id
valid_id-free s h = safe_text s (ground arith)

-- The household topic with everything bracketed to the right.
node_base-append :
    (hid nid r : Text)
    → node_base hid nid ++ r
      ≡ topic_root
        ++ (b'/'
            ∷ (topic_household ++ (b'/' ∷ (hid ++ (b'/' ∷ (topic_nodes ++ (b'/' ∷ (nid ++ r))))))))
unfolding node_base
node_base-append hid nid r = simp append_assoc

-- The parts of a topic of the household namespace.
split-node_base :
    (hid nid sub : Text)
    → is_valid_id hid ≡ true
    → is_valid_id nid ≡ true
    → split b'/' (node_base hid nid ++ (b'/' ∷ sub)) ≡ (
      topic_root,
      topic_household ∷ hid ∷ topic_nodes ∷ nid ∷ (split b'/' sub).0 ∷ (split b'/' sub).1,
    )
split-node_base hid nid sub vh vn =
    ap (split b'/') (node_base-append hid nid (b'/' ∷ sub))
    ∙ split_part b'/' topic_root _ _ _ refl (
        split_part b'/' topic_household _ _ _ refl (
          split_part b'/' hid _ _ _ (valid_id-free hid vh) (
            split_part b'/' topic_nodes _ _ _ refl
              (split_part b'/' nid sub _ _ (valid_id-free nid vn) refl))))

-- A topic built for a valid household, a valid node and any subtopic is read back as exactly those
-- three, reserved if the subtopic is, whatever the legacy prefix.
pub parse_topic-node_topic :
    (hid nid : Text) (c : ℕ) (sub : Text) (prefix : Option Text)
    → is_valid_id hid ≡ true
    → is_valid_id nid ≡ true
    → parse_topic (node_topic hid nid (some (c ∷ sub))) prefix
      ≡ some (household_topic hid nid (c ∷ sub))
unfolding parse_topic parse_household parse_node node_topic
parse_topic-node_topic hid nid c sub prefix vh vn = rw (
  split-node_base hid nid (c ∷ sub) vh vn,
  text_eq_self topic_root,
  text_eq_self topic_household,
  text_eq_self topic_nodes,
  vh,
  vn,
  join-split b'/' (c ∷ sub),
)

-- What a topic of the household namespace is made of.
pub record OfHousehold (topic : Text) (parsed : ParsedTopic) : Type 0 where
  pub household_id : Text
  pub node_id : Text
  pub subtopic : Text
  pub is : parsed ≡ household_topic household_id node_id subtopic
  pub valid_household : is_valid_id household_id ≡ true
  pub valid_node : is_valid_id node_id ≡ true
  pub built : topic ≡ node_base household_id node_id ++ (b'/' ∷ subtopic)

parse_node_sound :
    (hid : Text) (parts : List Text) (parsed : ParsedTopic)
    → parse_node hid parts ≡ some parsed
    → (nid : Text) × (s : Text) × (ss : List Text) × (parts ≡ topic_nodes ∷ nid ∷ s ∷ ss)
      × (is_valid_id nid ≡ true)
      × (parsed ≡ household_topic hid nid (join b'/' s ss))
unfolding parse_node
parse_node_sound hid [] parsed h = absurd (cc)
parse_node_sound hid (n ∷ []) parsed h = absurd (cc)
parse_node_sound hid (n ∷ nid ∷ []) parsed h = absurd (cc)
parse_node_sound hid (n ∷ nid ∷ s ∷ ss) parsed h = (
  nid,
  s,
  ss,
  ground (arith, text_eq_iff n topic_nodes),
  ground arith,
  ground (arith, text_eq_iff n topic_nodes),
)

joined :
    (hid nid s : Text) (ss : List Text)
    → join b'/' topic_root (topic_household ∷ hid ∷ topic_nodes ∷ nid ∷ s ∷ ss)
      ≡ node_base hid nid ++ (b'/' ∷ join b'/' s ss)
unfolding join
joined hid nid s ss = sym (node_base-append hid nid (b'/' ∷ join b'/' s ss))

parse_household_sound :
    (topic : Text) (parts : List Text) (parsed : ParsedTopic)
    → topic ≡ join b'/' topic_root parts
    → parse_household parts ≡ some parsed
    → OfHousehold topic parsed
unfolding parse_household
parse_household_sound topic [] parsed e h = absurd (cc)
parse_household_sound topic (x ∷ []) parsed e h = absurd (cc)
parse_household_sound topic (x ∷ hid ∷ rest) parsed e h =
    let (tests, inner) = if_some _ (parse_node hid rest) h in
    let (named, valid_hid) = and_true (text_eq x topic_household) (is_valid_id hid) tests in
    let (nid, s, ss, parts, valid, is) = parse_node_sound hid rest parsed inner in
    record {
      household_id = hid;
      node_id = nid;
      subtopic = join b'/' s ss;
      is = is;
      valid_household = valid_hid;
      valid_node = valid;
      built =
          e
          ∙ ap₂ (λ y ys. join b'/' topic_root (y ∷ hid ∷ ys))
              ((text_eq_iff x topic_household).0 named) parts
          ∙ joined hid nid s ss;
    }

legacy-is :
    (topic : Text) (prefix : Option Text) (parsed : ParsedTopic)
    → parse_legacy topic prefix ≡ some parsed
    → parsed.legacy ≡ true
unfolding parse_legacy
legacy-is topic prefix parsed h = ground arith

-- A topic that is read as one of the household namespace was built from a valid household, a valid
-- node and the subtopic that is read; so no two topics are read alike.
pub parse_topic_sound :
    (topic : Text) (prefix : Option Text) (parsed : ParsedTopic)
    → parse_topic topic prefix ≡ some parsed
    → parsed.legacy ≡ false
    → OfHousehold topic parsed
unfolding parse_topic
parse_topic_sound topic prefix parsed h modern =
    elim (Bool-cases (text_eq (split b'/' topic).0 topic_root)) [
      | inl ours ↦
          parse_household_sound topic (split b'/' topic).1 parsed
            (sym (join-split b'/' topic)
              ∙ ap (λ r. join b'/' r (split b'/' topic).1) ((text_eq_iff _ topic_root).0 ours))
            (rw ours at h)
      | inr other ↦ absurd (ground (arith, legacy-is topic prefix parsed (rw other at h)))
    ]
