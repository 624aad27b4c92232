-- ===== src/Coordinator/Retained.antt =====
-- coordinator.py: a retained lock event that is delivered again, after other messages, is no news.
use homekey_household.Prelude.{
  Text, text_eq, lookup, true, false, Bool-cases, Option-cases, some, List, [], ◌∷◌, All, ltb_ℤ,
  ◌≡◌, refl, sym, ◌∙◌, subst, inl, inr,
}
use homekey_household.Models.Json.{Json}
use homekey_household.Models.Errors.{Error, ok, raise}
use homekey_household.Models.Records.{LockChange, change_from_dict}
use homekey_household.Models.Node.{Node, lock_change_key}
use homekey_household.Mqtt.Inbound.{HomeKeyMessage}
use homekey_household.Coordinator.Store.{
  Platform, Moment, Coordinator, put_node, ensured, ensure_node,
}
use homekey_household.Coordinator.Attribution.{is_announced, already_attributed}
use homekey_household.Coordinator.Handlers.{handle_lock_last, store_change}
use homekey_household.Coordinator.Dispatch.{
  Kind, handle, finish, dispatch, decode, handle_message, handle_all, node_of,
}
use homekey_household.Coordinator.Effects.{Result-cases}
use homekey_household.Coordinator.Frame.{dispatch_household}
use homekey_household.Coordinator.Publication.{kind_of_message}
use homekey_household.Coordinator.Redelivery.{
  ensured_present, attribute_quiet, store_change-Settled,
}
use homekey_household.Coordinator.EventKept.{dispatch-SameEvent, IsOther}

-- The node has the event on record, and would not announce it at that time.
record Heard (p : Platform) (m : Moment) (k : Text) (change : LockChange) (c : Coordinator)
    : Type 0 where
  node : Node
  found : lookup k c.nodes ≡ some node
  event : node.lock_change ≡ some change
  quiet : is_announced p m node change ≡ false

quiet_too :
    (p : Platform) (m : Moment) (n n' : Node) (change : LockChange)
    → n'.lock_change ≡ n.lock_change
    → n'.attributed_lock_change ≡ n.attributed_lock_change
    → is_announced p m n change ≡ false
    → is_announced p m n' change ≡ false
unfolding is_announced already_attributed lock_change_key
quiet_too p m n n' change e f h = rw (e, f) h

handle_all-Heard :
    (p : Platform) (m' : Moment) (k : Text) (change : LockChange)
    (others : List (Moment × HomeKeyMessage)) (c : Coordinator)
    → All (IsOther k) others
    → Heard p m' k change c
    → Heard p m' k change (handle_all p others c)
unfolding handle_all handle_message
handle_all-Heard p m' k change [] c tt h = h
handle_all-Heard p m' k change ((m, msg) ∷ rest) c (other, others) h =
    handle_all-Heard p m' k change rest (handle_message p m msg c) others
      (elim (Bool-cases (text_eq msg.household_id c.household_id)) [
        | inr foreign ↦ rw foreign h
        | inl ours ↦
            let s = dispatch-SameEvent p m msg k h.node c h.found other in
            rw ours (record {
              node = s.node;
              found = s.found;
              event = s.event ∙ h.event;
              quiet = quiet_too p m' h.node s.node change s.event s.mark h.quiet;
            })
      ])

handle_all_household :
    (p : Platform) (others : List (Moment × HomeKeyMessage)) (c : Coordinator)
    → (handle_all p others c).household_id ≡ c.household_id
unfolding handle_all handle_message
handle_all_household p [] c = refl
handle_all_household p ((m, msg) ∷ rest) c =
    handle_all_household p rest (handle_message p m msg c)
    ∙ elim (Bool-cases (text_eq msg.household_id c.household_id)) [
      | inr foreign ↦ rw foreign refl
      | inl ours ↦ rw ours (dispatch_household p m msg c)
    ]

first-Heard :
    (p : Platform) (m m' : Moment) (msg : HomeKeyMessage) (c : Coordinator) (payload : Json)
    (change : LockChange)
    → ltb_ℤ m'.now m.now ≡ false
    → kind_of_message msg ≡ Kind.lock_last
    → decode p msg.subtopic msg.payload ≡ ok payload
    → change_from_dict p.clock payload c.household_id (node_of msg.node_id) ≡ ok change
    → Heard p m' (node_of msg.node_id) change (dispatch p m msg c).1
unfolding dispatch handle handle_lock_last finish
first-Heard p m m' msg c payload change later lock decoded got =
    let k = node_of msg.node_id in
    let s = store_change-Settled p m m' k (ensured k c) change (ensure_node k c) later in
    rw (decoded, lock, got)
      (record { node = s.node; found = s.found; event = s.event; quiet = s.quiet })

-- No cause was recorded between the two states: the logbook is the same, and no context was made.
pub record IsSilent (c c' : Coordinator) : Type 0 where
  pub logbook : c'.logbook ≡ c.logbook
  pub contexts : c'.next_context ≡ c.next_context

ensure_node-IsSilent : (k : Text) (c : Coordinator) → IsSilent c (ensure_node k c)
unfolding ensure_node
ensure_node-IsSilent k c = elim (Option-cases (lookup k c.nodes)) [
  | inl absent ↦ rw (absent, ensure_node) (record { logbook = refl; contexts = refl })
  | inr (n, found) ↦ rw (found, ensure_node) (record { logbook = refl; contexts = refl })
]

Heard-IsSilent :
    (p : Platform) (m : Moment) (k : Text) (change : LockChange) (c : Coordinator)
    → Heard p m k change c
    → IsSilent c (store_change p m k (ensured k c) change (ensure_node k c))
unfolding store_change
Heard-IsSilent p m k change c h =
    let (same, kept) = ensured_present k h.node c h.found in
    let n' : Node = record h.node { lock_change = some change; lock_change_is_fresh = true } in
    let quiet = quiet_too p m h.node n' change (sym h.event) refl h.quiet in
    rw (same, kept, attribute_quiet p m k n' change (put_node k n' c) quiet)
      (record { logbook = refl; contexts = refl })

again-IsSilent :
    (p : Platform) (m : Moment) (msg : HomeKeyMessage) (c : Coordinator) (payload : Json)
    → kind_of_message msg ≡ Kind.lock_last
    → decode p msg.subtopic msg.payload ≡ ok payload
    → ((change : LockChange)
        → change_from_dict p.clock payload c.household_id (node_of msg.node_id) ≡ ok change
        → Heard p m (node_of msg.node_id) change c)
    → IsSilent c (dispatch p m msg c).1
unfolding dispatch handle handle_lock_last finish
again-IsSilent p m msg c payload lock decoded heard =
    let k = node_of msg.node_id in
    elim (Result-cases (change_from_dict p.clock payload c.household_id k)) [
      | inr (e, failed) ↦
          let s = ensure_node-IsSilent k c in
          rw (decoded, lock, failed) (record { logbook = s.logbook; contexts = s.contexts })
      | inl (change, got) ↦
          let s = Heard-IsSilent p m k change c (heard change got) in
          rw (decoded, lock, got) (record { logbook = s.logbook; contexts = s.contexts })
    ]

undecoded-IsSilent :
    (p : Platform) (m : Moment) (msg : HomeKeyMessage) (c : Coordinator) (e : Error)
    → decode p msg.subtopic msg.payload ≡ raise e
    → IsSilent c (dispatch p m msg c).1
unfolding dispatch
undecoded-IsSilent p m msg c e failed = rw failed (record { logbook = refl; contexts = refl })

handled :
    (p : Platform) (m : Moment) (msg : HomeKeyMessage) (c : Coordinator)
    → text_eq msg.household_id c.household_id ≡ true
    → handle_message p m msg c ≡ (dispatch p m msg c).1
unfolding handle_message
handled p m msg c ours = rw ours refl

-- When a lock event is delivered, then any messages of which none is a lock event of the same node,
-- and then the first message again, not earlier than the first time, the second delivery records no
-- cause: the logbook stays as it is, and no context is made.
pub redelivered-IsSilent :
    (p : Platform) (m m' : Moment) (msg : HomeKeyMessage) (others : List (Moment × HomeKeyMessage))
    (c : Coordinator)
    → ltb_ℤ m'.now m.now ≡ false
    → kind_of_message msg ≡ Kind.lock_last
    → All (IsOther (node_of msg.node_id)) others
    → let d = handle_all p ((m, msg) ∷ others) c in IsSilent d (handle_message p m' msg d)
unfolding handle_all handle_message
redelivered-IsSilent p m m' msg others c later lock other =
    let d = handle_all p ((m, msg) ∷ others) c in
    let home : d.household_id ≡ c.household_id = handle_all_household p ((m, msg) ∷ others) c in
    elim (Bool-cases (text_eq msg.household_id c.household_id)) [
      | inr foreign ↦ rw (home, foreign) (record { logbook = refl; contexts = refl })
      | inl ours ↦ elim (Result-cases (decode p msg.subtopic msg.payload)) [
        | inr (e, failed) ↦
            subst (IsSilent d) (sym (handled p m' msg d (rw home ours)))
              (undecoded-IsSilent p m' msg d e failed)
        | inl (payload, decoded) ↦
            let k = node_of msg.node_id in
            subst (IsSilent d) (sym (handled p m' msg d (rw home ours))) (
              again-IsSilent p m' msg d payload lock decoded (λ change got.
                handle_all-Heard p m' k change others (handle_message p m msg c) other (
                  subst (Heard p m' k change) (sym (handled p m msg c ours))
                    (first-Heard p m m' msg c payload change later lock decoded (rw home at got)))))
      ]
    ]
