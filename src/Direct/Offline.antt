-- ===== src/Direct/Offline.antt =====
-- direct.py, `DirectPoller`: what a run of failed polls does to the node, and what ends it.
use homekey_household.Prelude.{
  suc, ◌+◌, ◌<◌, ◌≤◌, length, Text, codes, truthy, true, some, List, [], ◌∷◌, All, ◌≡◌, ◌≢◌, refl,
  ◌∙◌, ap, arith,
}
use homekey_household.Const.Topics.{topic_status}
use homekey_household.Models.Errors.{Error, raise}
use homekey_household.Mqtt.Inbound.{HomeKeyMessage}
use homekey_household.Coordinator.Store.{Platform}
use homekey_household.Coordinator.Dispatch.{handle_message}
use homekey_household.Models.Values.{Writer}
use homekey_household.Direct.Payloads.{message_of}
use homekey_household.Direct.Poller.{
  Poller, Poll, is_caught, read_node, take_node, poll_once, poll_safely, settle, after_failure,
  mark_offline, run_polls,
}

module _ (p : Platform) (w : Writer) where
  -- A poll that learns nothing of the node: no answer, a refusal, or an answer without an identity.
  pub record IsFailed (poll : Poll) : Type 0 where
    pub error : Error
    pub failed : read_node p w poll ≡ raise error
    pub caught : is_caught error ≡ true

  failed_step :
      (poll : Poll) (q : Poller)
      → IsFailed poll
      → (poll_safely p w poll q).1
        ≡ after_failure p w (poll.times 0) (record q { failures = suc q.failures })
  unfolding poll_safely poll_once
  failed_step poll q f = rw (f.failed, poll_safely, poll_once, take_node, settle, f.caught) refl

  failed_keeps :
      (poll : Poll) (q : Poller)
      → IsFailed poll
      → suc q.failures ≢ 3
      → (poll_safely p w poll q).1 ≡ record q { failures = suc q.failures }
  unfolding after_failure
  failed_keeps poll q f early = failed_step poll q f ∙ ground arith

  pub run_step :
      (poll : Poll) (rest : List Poll) (q : Poller)
      → IsFailed poll
      → suc q.failures ≢ 3
      → run_polls p w (poll ∷ rest) q ≡ run_polls p w rest (record q { failures = suc q.failures })
  unfolding run_polls
  run_step poll rest q f early = ap (run_polls p w rest) (failed_keeps poll q f early)

  -- While fewer than three polls in a row have failed, nothing that is known of the node changes.
  pub few_failures_keep :
      (polls : List Poll) (q : Poller)
      → All IsFailed polls
      → q.failures + length polls < 3
      → ((run_polls p w polls q).coordinator ≡ q.coordinator)
        × ((run_polls p w polls q).failures ≡ q.failures + length polls)
        × ((run_polls p w polls q).node_id ≡ q.node_id)
  unfolding run_polls
  few_failures_keep [] q fs few = (refl, omega arith, refl)
  few_failures_keep (poll ∷ rest) q (f, fs) few =
      let step = run_step poll rest q f (omega arith) in
      let q' : Poller = record q { failures = suc q.failures } in
      let (same, count, node) = few_failures_keep rest q' fs (omega arith) in
      (
        ap (λ x. x.coordinator) step ∙ same,
        ap (λ x. x.failures) step ∙ count ∙ omega arith,
        ap (λ x. x.node_id) step ∙ node,
      )

  -- After the third one nothing changes either.
  failures_keep :
      (polls : List Poll) (q : Poller)
      → All IsFailed polls
      → 3 ≤ q.failures
      → (run_polls p w polls q).coordinator ≡ q.coordinator
  unfolding run_polls
  failures_keep [] q fs late = refl
  failures_keep (poll ∷ rest) q (f, fs) late =
      ap (λ x. x.coordinator) (run_step poll rest q f (omega arith))
      ∙ failures_keep rest (record q { failures = suc q.failures }) fs (omega arith)

  abbrev pub offline_message : Poller → Text → HomeKeyMessage
  offline_message q node_id =
      message_of w q.household_id node_id topic_status (codes "offline") true

  third_step :
      (poll : Poll) (q : Poller) (node_id : Text)
      → IsFailed poll
      → q.failures ≡ 2
      → q.node_id ≡ some node_id
      → truthy node_id ≡ true
      → (poll_safely p w poll q).1 ≡ record q {
        failures = suc q.failures;
        coordinator = handle_message p (poll.times 0) (offline_message q node_id) q.coordinator;
      }
  unfolding after_failure mark_offline
  third_step poll q node_id f two known named = failed_step poll q f ∙ ground arith

  -- For a poller that knows its node and counts no failures, the third failed poll in a row takes the
  -- node offline, by the one message that says so, and later failures in the same run do nothing more.
  pub third_failure_offline :
      (a b c : Poll) (rest : List Poll) (q : Poller) (node_id : Text)
      → All IsFailed (a ∷ b ∷ c ∷ rest)
      → q.failures ≡ 0
      → q.node_id ≡ some node_id
      → truthy node_id ≡ true
      → (run_polls p w (a ∷ b ∷ c ∷ rest) q).coordinator
        ≡ handle_message p (c.times 0) (offline_message q node_id) q.coordinator
  unfolding run_polls
  third_failure_offline a b c rest q node_id (fa, (fb, (fc, fs))) none_yet known named =
      let q1 : Poller = record q { failures = suc q.failures } in
      let q2 : Poller = record q { failures = suc (suc q.failures) } in
      ap (λ x. x.coordinator)
        (run_step a (b ∷ c ∷ rest) q fa (omega arith)
          ∙ run_step b (c ∷ rest) q1 fb (omega arith)
          ∙ ap (run_polls p w rest) (third_step c q2 node_id fc (omega arith) known named))
      ∙ failures_keep rest _ fs (omega arith)
