-- ===== src/Direct/Recovery.antt =====
-- direct.py, `DirectPoller`: what an answered poll does, the polls that change nothing, and the
-- coordinator that all polls keep well formed.
use homekey_household.Prelude.{
  suc, ◌<◌, ◌∙◌, ◌⊎◌, ap, arith, Text, text_eq, length, true, false, some, List, [], ◌∷◌, ◌≡◌, refl,
  Option-cases, Bool-cases, ◌&&◌, inl, inr, ℕ, truthy, ◌==◌,
}
use homekey_household.Models.Json.{Json, Fields, null}
use homekey_household.Models.Errors.{Result, ok, raise}
use homekey_household.Mqtt.Inbound.{HomeKeyMessage}
use homekey_household.Coordinator.Store.{Platform, Moment, Coordinator}
use homekey_household.Coordinator.Dispatch.{handle_message}
use homekey_household.Coordinator.Registry.{IsValid}
use homekey_household.Coordinator.Invariant.{handle_message-IsValid}
use homekey_household.Models.Values.{Writer}
use homekey_household.Direct.Payloads.{state_to_messages}
use homekey_household.Direct.Client.{get_guest}
use homekey_household.Direct.Offline.{IsFailed, run_step}
use homekey_household.Direct.Poller.{
  Poller, Poll, is_caught, read_node, take_node, take_messages, poll_once, poll_safely, settle,
  after_failure, mark_offline, run_polls, feed, feed_guest, offline_after,
}

module _ (p : Platform) (w : Writer) where
  -- A poll that is answered by the node of this household, with an answer that can be put into
  -- messages, ends the run of failures, whatever the run was and whatever becomes of the guest request;
  -- and the coordinator handles the messages of the answer in order, the guest state last.
  pub answered_poll :
      (poll : Poll) (q : Poller) (info state : Fields) (household_id node_id : Text)
      (messages : List HomeKeyMessage)
      → read_node p w poll ≡ ok ((info, state), (household_id, node_id))
      → text_eq household_id q.household_id ≡ true
      → state_to_messages w state info household_id node_id ≡ ok messages
      → poll_safely p w poll q ≡ (
        ok tt,
        record q {
          node_id = some node_id;
          failures = 0;
          coordinator =
              feed_guest p w household_id node_id
                (poll.times (length messages))
                (get_guest poll.guest)
                (feed p w poll.times messages q.coordinator);
        },
      )
  unfolding poll_safely poll_once take_node take_messages
  answered_poll poll q info state household_id node_id messages read home made =
      rw (read, home, made, settle) refl

  -- An answer from a node that has moved to another household is not applied: the coordinator stays
  -- as it is, and the poll is no failure.
  pub rehomed_poll :
      (poll : Poll) (q : Poller) (info state : Fields) (household_id node_id : Text)
      → read_node p w poll ≡ ok ((info, state), (household_id, node_id))
      → text_eq household_id q.household_id ≡ false
      → poll_safely p w poll q ≡ (ok tt, record q { failures = 0; mismatch_logged = true })
  unfolding poll_safely poll_once take_node
  rehomed_poll poll q info state household_id node_id read away = rw (read, away, settle) refl

  -- A poll that is answered by a node of another household.
  pub record IsAway (household : Text) (poll : Poll) : Type 0 where
    pub info : Fields
    pub state : Fields
    pub household_id : Text
    pub node_id : Text
    pub read : read_node p w poll ≡ ok ((info, state), (household_id, node_id))
    pub away : text_eq household_id household ≡ false

  -- Polls that are answered by nodes of other households or fail, after `n` that failed, and of which
  -- no three in a row fail.
  abbrev pub IsQuiet : Text → ℕ → List Poll → Type 0
  IsQuiet household n [] = Unit
  IsQuiet household n (poll ∷ rest) =
      (IsAway household poll × IsQuiet household 0 rest)
      ⊎ (IsFailed p w poll × (suc n < 3) × IsQuiet household (suc n) rest)

  -- However many polls are answered by nodes of other households, and however many fail between them,
  -- the coordinator stays as it is, and so does the node that the poller knows, as long as no three in
  -- a row fail, those counted before the first poll included: an answer from elsewhere ends a run of
  -- failures.
  pub quiet_polls_keep :
      (polls : List Poll) (q : Poller)
      → IsQuiet q.household_id q.failures polls
      → ((run_polls p w polls q).coordinator ≡ q.coordinator)
        × ((run_polls p w polls q).node_id ≡ q.node_id)
  unfolding run_polls
  quiet_polls_keep [] q h = (refl, refl)
  quiet_polls_keep (poll ∷ rest) q (inl (a, h)) =
      let step =
        ap (λ t. run_polls p w rest t.1)
          (rehomed_poll poll q a.info a.state a.household_id a.node_id a.read a.away) in
      let (same, node) =
        quiet_polls_keep rest (record q { failures = 0; mismatch_logged = true }) h in
      (ap (λ x. x.coordinator) step ∙ same, ap (λ x. x.node_id) step ∙ node)
  quiet_polls_keep (poll ∷ rest) q (inr (f, few, h)) =
      let step = run_step p w poll rest q f (omega arith) in
      let (same, node) = quiet_polls_keep rest (record q { failures = suc q.failures }) h in
      (ap (λ x. x.coordinator) step ∙ same, ap (λ x. x.node_id) step ∙ node)

  feed-IsValid :
      (times : ℕ → Moment) (messages : List HomeKeyMessage) (c : Coordinator)
      → IsValid c
      → IsValid (feed p w times messages c)
  unfolding feed
  feed-IsValid times [] c v = v
  feed-IsValid times (msg ∷ rest) c v =
      feed-IsValid (λ i. times (suc i)) rest (handle_message p (times 0) msg c)
        (handle_message-IsValid p (times 0) msg c v)

  feed_guest-IsValid :
      (household_id node_id : Text) (m : Moment) (r : Result Json) (c : Coordinator)
      → IsValid c
      → IsValid (feed_guest p w household_id node_id m r c)
  unfolding feed_guest
  feed_guest-IsValid h k m (raise e) c v = v
  feed_guest-IsValid h k m (ok null) c v = v
  feed_guest-IsValid h k m (ok (Json.bool b)) c v = handle_message-IsValid p m _ c v
  feed_guest-IsValid h k m (ok (Json.int n)) c v = handle_message-IsValid p m _ c v
  feed_guest-IsValid h k m (ok (Json.float x)) c v = handle_message-IsValid p m _ c v
  feed_guest-IsValid h k m (ok (Json.str s)) c v = handle_message-IsValid p m _ c v
  feed_guest-IsValid h k m (ok (Json.arr vs)) c v = handle_message-IsValid p m _ c v
  feed_guest-IsValid h k m (ok (Json.obj fs)) c v = handle_message-IsValid p m _ c v

  take_messages-IsValid :
      (poll : Poll) (household_id node_id : Text) (r : Result (List HomeKeyMessage)) (q : Poller)
      → IsValid q.coordinator
      → IsValid (take_messages p w poll household_id node_id r q).1.coordinator
  unfolding take_messages
  take_messages-IsValid poll h k (raise e) q v = v
  take_messages-IsValid poll h k (ok messages) q v =
      feed_guest-IsValid h k (poll.times (length messages)) (get_guest poll.guest) _
        (feed-IsValid poll.times messages q.coordinator v)

  take_node-IsValid :
      (poll : Poll) (r : Result ((Fields × Fields) × (Text × Text))) (q : Poller)
      → IsValid q.coordinator
      → IsValid (take_node p w poll r q).1.coordinator
  unfolding take_node
  take_node-IsValid poll (raise e) q v = v
  take_node-IsValid poll (ok ((info, state), (h, k))) q v =
      elim (Bool-cases (text_eq h q.household_id)) [
        | inl home ↦
            rw home (take_messages-IsValid poll h k (state_to_messages w state info h k) q v)
        | inr away ↦ rw away v
      ]

  after_failure-IsValid :
      (m : Moment) (q : Poller)
      → IsValid q.coordinator
      → IsValid (after_failure p w m q).coordinator
  unfolding after_failure mark_offline
  after_failure-IsValid m q v = elim (Option-cases q.node_id) [
    | inl unknown ↦ rw unknown v
    | inr (k, known) ↦ elim (Bool-cases (q.failures == offline_after && truthy k)) [
      | inl third ↦ rw (known, third) (handle_message-IsValid p m _ q.coordinator v)
      | inr other ↦ rw (known, other) v
    ]
  ]

  settle-IsValid :
      (m : Moment) (r : Result (Unit {0})) (q : Poller)
      → IsValid q.coordinator
      → IsValid (settle p w m (r, q)).1.coordinator
  unfolding settle
  settle-IsValid m (ok u) q v = v
  settle-IsValid m (raise e) q v = elim (Bool-cases (is_caught e)) [
    | inl caught ↦ rw caught (after_failure-IsValid m (record q { failures = suc q.failures }) v)
    | inr other ↦ rw other v
  ]

  -- However the polls of a node end, they keep the coordinator well formed.
  pub run_polls-IsValid :
      (polls : List Poll) (q : Poller)
      → IsValid q.coordinator
      → IsValid (run_polls p w polls q).coordinator
  unfolding run_polls poll_safely poll_once
  run_polls-IsValid [] q v = v
  run_polls-IsValid (poll ∷ rest) q v = run_polls-IsValid rest _ (
      settle-IsValid (poll.times 0) (poll_once p w poll q).0 (poll_once p w poll q).1
        (take_node-IsValid poll (read_node p w poll) q v))
