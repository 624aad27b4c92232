-- ===== src/Coordinator/Attribution.antt =====
-- coordinator.py: `_is_recent`, `_actor_for`, `_async_log_lock_cause`, `_attribute_lock_event` and
-- `_attribute_lock_change`.
use homekey_household.Prelude.{
  ℕ, suc, ◌*◌, Text, codes, text_eq, truthy, member, lookup, insert, Bool, true, false, ◌&&◌, not,
  Option, none, some, [], ◌∷◌, ◌++◌, ℤ, pos, int_eq, ltb_ℤ, within, if◌then◌else◌,
}
use homekey_household.Const.Words.{
  lock_state_value, lock_state_of, source_homekey, device_initiated_sources, lock_source_labels,
  lock_event_max_age_seconds,
}
use homekey_household.Const.Topics.{unique_id, entity_lock}
use homekey_household.Models.Health.{NodeHealth}
use homekey_household.Models.Records.{LastAuth, LockChange}
use homekey_household.Models.Node.{Node, EventKey, event_key_eq, lock_change_key, optional_text_eq}
use homekey_household.Coordinator.Store.{
  Platform, Moment, Coordinator, LogEntry, ParsedTime, put_node,
}

-- The answer of `_is_recent`, which fails where the date parser raises.
pub data Recency : Type 0 where
  recent old failed : Recency

-- 2001-09-09 in microseconds since the epoch: `_WALL_CLOCK_FLOOR`
abbrev pub wall_clock_floor : ℤ
wall_clock_floor = pos 999993600000000

unfoldable pub recency_of : Moment → ParsedTime → Recency
recency_of m ParsedTime.not_datetime = Recency.recent
recency_of m ParsedTime.bad_datetime = Recency.failed
recency_of m (ParsedTime.stamp t) =
    if ltb_ℤ t wall_clock_floor
    then Recency.recent
    else if within (lock_event_max_age_seconds * 1000000) t m.now
    then Recency.recent
    else Recency.old

unfoldable pub is_recent : Platform → Moment → Option Text → Recency
unfolding recency_of
is_recent p m none = Recency.recent
is_recent p m (some timestamp) = recency_of m (p.parse_datetime timestamp)

-- `LOCK_SOURCE_LABELS.get(source, source)`
unfoldable pub label_of : Text → Text
label_of source = elim (lookup source lock_source_labels) [ none ↦ source | some label ↦ label ]

-- The issuer, if it has a name and its stamp is that of the change.
unfoldable pub named_issuer : LastAuth → Option Text → Option Text
unfolding optional_text_eq
named_issuer auth change_timestamp = elim auth.issuer [
  | none ↦ none
  | some issuer ↦ elim auth.timestamp [
    | none ↦ none
    | some t ↦
        if truthy issuer && optional_text_eq (some t) change_timestamp then some issuer else none
  ]
]

unfoldable pub issuer_of : Node → Text → Option Text → Option Text
unfolding named_issuer
issuer_of n source change_timestamp =
    if text_eq source source_homekey
    then elim n.last_auth [ none ↦ none | some auth ↦ named_issuer auth change_timestamp ]
    else none

-- `_actor_for`
unfoldable pub actor_for : Node → Text → Option Text → Text
unfolding issuer_of label_of
actor_for n source change_timestamp = elim (issuer_of n source change_timestamp) [
  | none ↦ label_of source
  | some issuer ↦ issuer
]

unfoldable pub attribution : Text → Text → Text
attribution actor mechanism =
    if text_eq actor mechanism then actor else actor ++ (codes " with " ++ mechanism)

unfoldable pub cause_message : Node → ℤ → Text → Option Text → Text
unfolding attribution actor_for label_of lock_state_value lock_state_of
cause_message n current source change_timestamp =
    n.node_name
    ++ (codes " "
        ++ (lock_state_value (lock_state_of current)
            ++ (codes " by "
                ++ attribution (actor_for n source change_timestamp) (label_of source))))

unfoldable pub cause_entry : Platform → Coordinator → Node → ℤ → Text → Option Text → ℕ → LogEntry
unfolding cause_message unique_id
cause_entry p c n current source change_timestamp context = record {
  message = cause_message n current source change_timestamp;
  entity_id = p.entity_id_of (unique_id c.household_id n.node_id entity_lock);
  context = context;
}

-- `_async_log_lock_cause`. What it raises is swallowed by the caller, which has nothing left to do.
unfoldable pub log_lock_cause :
    Platform → Node → ℤ → Text → Option Text → ℕ → Coordinator → Coordinator
unfolding cause_entry
log_lock_cause p n current source change_timestamp context c =
    let entry = cause_entry p c n current source change_timestamp context in
    if p.log_raises entry then c else record c { logbook = c.logbook ++ (entry ∷ []) }

-- `context = Context(); self._pending_contexts[node.node_id] = context`
unfoldable pub attach_context : Node → Coordinator → Coordinator
attach_context n c = record c {
  pending_contexts = insert n.node_id c.next_context c.pending_contexts;
  next_context = suc c.next_context;
}

-- `node.attributed_lock_change is not None and … == key`, for an optional key
unfoldable pub already_attributed : Node → Option EventKey → Bool
unfolding event_key_eq
already_attributed n key = elim n.attributed_lock_change [
  | none ↦ false
  | some a ↦ elim key [ none ↦ false | some k ↦ event_key_eq a k ]
]

-- What `_attribute_lock_event` does once the event is to be announced.
unfoldable pub announce_event : Platform → Text → Node → LockChange → Coordinator → Coordinator
unfolding log_lock_cause attach_context lock_change_key
announce_event p node_id n change c =
    let marked = record n { attributed_lock_change = lock_change_key n } in
    log_lock_cause p marked change.current change.source change.timestamp c.next_context
      (put_node node_id marked (attach_context n c))

unfoldable pub is_announced : Platform → Moment → Node → LockChange → Bool
unfolding already_attributed is_recent lock_change_key
is_announced p m n change =
    if member change.source device_initiated_sources
    then (if already_attributed n (lock_change_key n)
        then false
        else elim (is_recent p m change.timestamp) [
          | Recency.recent ↦ true
          | Recency.old ↦ false
          | Recency.failed ↦ false
        ])
    else false

-- `_attribute_lock_event`, with the `try` around it
unfoldable pub attribute_lock_event :
    Platform → Moment → Text → Node → LockChange → Coordinator → Coordinator
unfolding announce_event is_announced
attribute_lock_event p m node_id n change c =
    if is_announced p m n change then announce_event p node_id n change c else c

-- The lock moved between two snapshots that both report it.
unfoldable pub is_change : Option ℤ → Option ℤ → Bool
is_change none current = false
is_change (some a) none = false
is_change (some a) (some b) = not (int_eq b a)

-- The event on record that explains the snapshot, if there is one to announce.
unfoldable pub explanation : Node → ℤ → Option LockChange
unfolding already_attributed lock_change_key
explanation n current = elim n.lock_change [
  | none ↦ none
  | some change ↦
      if int_eq change.current current
        && not (already_attributed n (lock_change_key n))
        && member change.source device_initiated_sources
      then some change
      else none
]

explain : Platform → Node → ℤ → Option LockChange → Coordinator → Coordinator
unfolding log_lock_cause attach_context
explain p n current none c = c
explain p n current (some change) c =
    log_lock_cause p n current change.source change.timestamp c.next_context (attach_context n c)

-- `_attribute_lock_change`
unfoldable pub attribute_lock_change :
    Platform → Node → Option ℤ → NodeHealth → Coordinator → Coordinator
unfolding explain is_change explanation
attribute_lock_change p n previous_current health c = elim health.lock_current [
  | none ↦ c
  | some current ↦
      if is_change previous_current (some current)
      then explain p n current (explanation n current) c
      else c
]
