-- ===== src/Coordinator/Causes.antt =====
-- coordinator.py: which lock changes get a cause, and the context that its record shares with the
-- update.
use homekey_household.Prelude.{
  suc, Text, member, insert, true, false, Option, some, [], ◌∷◌, ◌++◌, ℤ, int_eq, int_eq_iff, ◌≡◌,
  ◌≢◌, ◌∙◌, if◌then◌else◌, ap, subst, refl, ◌⊎◌, inl, inr, arith, Bool-cases, Option-cases,
}
use homekey_household.Const.Words.{device_initiated_sources}
use homekey_household.Const.Topics.{unique_id, entity_lock}
use homekey_household.Models.Health.{NodeHealth}
use homekey_household.Models.Records.{LockChange}
use homekey_household.Models.Node.{Node, lock_change_key}
use homekey_household.Coordinator.Store.{Platform, Moment, Coordinator, LogEntry, put_node}
use homekey_household.Coordinator.Attribution.{
  Recency, log_lock_cause, cause_entry, attach_context, attribute_lock_event, attribute_lock_change,
  cause_message, actor_for, issuer_of, is_announced, announce_event, is_recent, already_attributed,
  is_change, explanation,
}

-- What an attribution records of a change: one cause, with the words for the state that it led to, its
-- source and its stamp, in a fresh context, which is attached to the node for the update under way.
-- Where the logbook refuses the entry the context is attached alone.
pub record Recorded (p : Platform) (n : Node) (change : LockChange) (c c' : Coordinator)
    : Type 0 where
  pub contexts : c'.pending_contexts ≡ insert n.node_id c.next_context c.pending_contexts
  pub fresh : c'.next_context ≡ suc c.next_context
  pub entry : LogEntry
  pub message : entry.message ≡ cause_message n change.current change.source change.timestamp
  pub entity : entry.entity_id ≡ p.entity_id_of (unique_id c.household_id n.node_id entity_lock)
  pub shared : entry.context ≡ c.next_context
  pub logged : c'.logbook ≡ (if p.log_raises entry then c.logbook else c.logbook ++ (entry ∷ []))

pub record Silent (c c' : Coordinator) : Type 0 where
  pub contexts : c'.pending_contexts ≡ c.pending_contexts
  pub fresh : c'.next_context ≡ c.next_context
  pub logbook : c'.logbook ≡ c.logbook

-- The record of a cause, after its context was attached.
log-Recorded :
    (p : Platform) (n x : Node) (change : LockChange) (c d : Coordinator)
    → cause_entry p d x change.current change.source change.timestamp c.next_context
      ≡ cause_entry p c n change.current change.source change.timestamp c.next_context
    → d.pending_contexts ≡ insert n.node_id c.next_context c.pending_contexts
    → d.next_context ≡ suc c.next_context
    → d.logbook ≡ c.logbook
    → Recorded p n change c
        (log_lock_cause p x change.current change.source change.timestamp c.next_context d)
unfolding log_lock_cause cause_entry
log-Recorded p n x change c d same e f g =
    let entry : LogEntry =
      cause_entry p d x change.current change.source change.timestamp c.next_context in
    record {
      contexts = ground arith;
      fresh = ground arith;
      entry = entry;
      message = ap (λ x. x.message) same;
      entity = ap (λ x. x.entity_id) same;
      shared = refl;
      logged = elim (Bool-cases (p.log_raises entry)) [
        | inl refused ↦ rw refused g
        | inr written ↦ rw written (rw g)
      ];
    }

snapshot-Recorded :
    (p : Platform) (n : Node) (now : ℤ) (change : LockChange) (c : Coordinator)
    → change.current ≡ now
    → Recorded p n change c
        (log_lock_cause p n now change.source change.timestamp c.next_context (attach_context n c))
unfolding attach_context cause_entry
snapshot-Recorded p n now change c same =
    subst
      (λ i.
        Recorded p n change c
          (log_lock_cause p n i change.source change.timestamp c.next_context (attach_context n c)))
      same (log-Recorded p n n change c (attach_context n c) refl refl refl refl)

-- What has to hold for a snapshot to be explained by the event on record.
pub record Explained (n : Node) (previous : Option ℤ) (health : NodeHealth) : Type 0 where
  pub before : ℤ
  pub now : ℤ
  pub was : previous ≡ some before
  pub is : health.lock_current ≡ some now
  pub moved : before ≢ now
  pub change : LockChange
  pub on_record : n.lock_change ≡ some change
  pub same_state : change.current ≡ now
  pub from_door : member change.source device_initiated_sources ≡ true
  pub unannounced : already_attributed n (lock_change_key n) ≡ false

explained :
    (n : Node) (previous : Option ℤ) (health : NodeHealth) (now : ℤ) (change : LockChange)
    → health.lock_current ≡ some now
    → is_change previous (some now) ≡ true
    → explanation n now ≡ some change
    → Explained n previous health
unfolding is_change explanation
explained n previous health now change is moved found = elim (Option-cases previous) [
  | inl first ↦ absurd (ground arith)
  | inr (before, was) ↦ elim (Option-cases n.lock_change) [
    | inl nothing ↦ absurd (ground arith)
    | inr (change', on_record) ↦ record {
      before = before;
      now = now;
      was = was;
      is = is;
      moved = ground (arith, int_eq_iff now before);
      change = change';
      on_record = on_record;
      same_state = ground (arith, int_eq_iff change'.current now);
      from_door = ground arith;
      unannounced = ground arith;
    }
  ]
]

Explained-found :
    (n : Node) (previous : Option ℤ) (health : NodeHealth) (now : ℤ)
    → health.lock_current ≡ some now
    → (e : Explained n previous health)
    → (is_change previous (some now) ≡ true) × (explanation n now ≡ some e.change)
unfolding is_change explanation
Explained-found n previous health now is e =
    let same : e.now ≡ now = ground (arith, e.is) in
    let moved : int_eq now e.before ≡ false = ground (arith, int_eq_iff now e.before, e.moved) in
    let state : int_eq e.change.current now ≡ true =
      ground (arith, int_eq_iff e.change.current now, e.same_state) in
    (rw (e.was, moved) refl, ground (arith, e.on_record, state, e.unannounced, e.from_door))

announce_event-Recorded :
    (p : Platform) (k : Text) (n : Node) (change : LockChange) (c : Coordinator)
    → Recorded p n change c (announce_event p k n change c)
unfolding announce_event attach_context cause_entry cause_message actor_for issuer_of
announce_event-Recorded p k n change c =
    let marked : Node = record n { attributed_lock_change = lock_change_key n } in
    log-Recorded p n marked change c (put_node k marked (attach_context n c)) refl refl refl refl

-- A snapshot is attributed if the lock moved between two snapshots that report it, and the event on
-- record led to the state that the snapshot shows, came from the device, and was not announced
-- before; then the cause of that event is recorded: the context is fresh and attached to the node, and
-- the entry that describes the event is the one new entry of the logbook, unless the logbook raises on
-- it. If any of this fails nothing changes.
pub attribute_lock_change_cases :
    (p : Platform) (n : Node) (previous : Option ℤ) (health : NodeHealth) (c : Coordinator)
    → (¬ Explained n previous health × (attribute_lock_change p n previous health c ≡ c))
      ⊎ ((e : Explained n previous health) × Recorded p n e.change c
            (attribute_lock_change p n previous health c))
unfolding attribute_lock_change
attribute_lock_change_cases p n previous health c = elim (Option-cases health.lock_current) [
  | inl unreported ↦ inl (λ e. absurd (cc (e.is, unreported)), ground arith)
  | inr (now, is) ↦ elim (Bool-cases (is_change previous (some now))) [
    | inr still ↦ inl (
      λ e. let (moved, _) = Explained-found n previous health now is e in absurd (ground arith),
      ground arith,
    )
    | inl moved ↦ elim (Option-cases (explanation n now)) [
      | inl unexplained ↦ inl (
        λ e.
            let (_, found) = Explained-found n previous health now is e in
            absurd (cc (found, unexplained)),
        ground arith,
      )
      | inr (change, found) ↦
          let e = explained n previous health now change is moved found in
          let (_, on_record) = Explained-found n previous health now is e in
          let same : change ≡ e.change = cc in
          let state : e.change.current ≡ now = e.same_state ∙ cc (e.is, is) in
          inr (
            e,
            rw (is, moved, on_record, attribute_lock_change)
                (snapshot-Recorded p n now e.change c state),
          )
    ]
  ]
]

-- What has to hold for an event to be announced.
pub record Announced (p : Platform) (m : Moment) (n : Node) (change : LockChange) : Type 0 where
  pub from_door : member change.source device_initiated_sources ≡ true
  pub unmarked : already_attributed n (lock_change_key n) ≡ false
  pub recent : is_recent p m change.timestamp ≡ Recency.recent

Announced-is_announced :
    (p : Platform) (m : Moment) (n : Node) (change : LockChange)
    → Announced p m n change
    → is_announced p m n change ≡ true
unfolding is_announced
Announced-is_announced p m n change a = rw (a.from_door, a.unmarked, a.recent) refl

-- An event is attributed if it came from the device, is not the one that is marked in the node, and
-- is not older than the limit; then one cause is recorded. If any of this fails nothing changes.
pub attribute_lock_event_cases :
    (p : Platform) (m : Moment) (k : Text) (n : Node) (change : LockChange) (c : Coordinator)
    → (¬ Announced p m n change × (attribute_lock_event p m k n change c ≡ c))
      ⊎ (Announced p m n change × Recorded p n change c (attribute_lock_event p m k n change c))
unfolding attribute_lock_event is_announced
attribute_lock_event_cases p m k n change c = elim (Bool-cases (is_announced p m n change)) [
  | inr silent ↦ inl (λ a. absurd (cc (Announced-is_announced p m n change a, silent)), rw silent)
  | inl loud ↦ inr (
    record { from_door = ground arith; unmarked = ground arith; recent = ground arith },
    rw loud (announce_event-Recorded p k n change c),
  )
]
