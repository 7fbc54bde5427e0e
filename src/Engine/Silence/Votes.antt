-- ===== src/Engine/Silence/Votes.antt =====
-- Proposals, requests, heartbeats and clean-up of rabia-engine/src/engine.rs in a silent engine.
use rabia.Base.{ℕ, ◌≡◌, refl, List, [], ◌∷◌, Option, none, some, ◌==◌, ◌/◌}
use rabia.Core.Types.{NodeId, BatchId, StateValue, v0, v1, v_question, CommandBatch}
use rabia.Core.Message.{ProposeMessage, SyncRequestMessage, NewBatchMessage}
use rabia.Core.Phase.{PhaseData}
use rabia.Engine.State.{add_pending_batch}
use rabia.Engine.Runtime.{Env, on_state}
use rabia.Engine.Voting.{
  propose_in, propose_batch, process_batch_request, draw, randomized_vote, vote_on,
  determine_round1_vote, keep_batch, cast_vote, send_round1, answer_proposal, handle_propose,
}
use rabia.Engine.Sync.{
  request_from, initiate_sync, handle_new_batch, send_heartbeat, advance_to_next_phase, my_history,
  cleanup_old_state,
}
use rabia.Engine.Change.{
  Steps, bind-Steps, then-Steps, if-Steps, pure-Steps, gets-Steps, my_id-Steps, reply-Steps,
  bind_stamp-Steps, now_millis-Steps, gen_bool-Steps,
}
use rabia.Engine.Growth.{
  add_pending_batch-Grows, cleanup_old_phases-Grows, cleanup_old_pending_batches-Grows,
}
use rabia.Engine.Silence.Rules.{
  silence, transmit-Steps, advance_phase-AddsNoPhase, on_state-Steps, send-Steps, update-Steps,
  broadcast-Steps,
}

module _ {S : Type 0} (env : Env) where
  draw-Steps : (n : ℕ) (v w : StateValue) → Steps (draw {S = S} env n v w)
  draw-Steps n v w = bind-Steps _ _ (gen_bool-Steps env n) λ lucky. pure-Steps _

  randomized-Steps : (v : StateValue) → Steps (randomized_vote {S = S} env v)
  unfolding randomized_vote
  randomized-Steps v0 = draw-Steps 7 v0 v_question
  randomized-Steps v1 = draw-Steps 8 v1 v_question
  randomized-Steps v_question = pure-Steps v_question

  vote_known-Steps :
      (o : Option StateValue) (p : PhaseData) (v : StateValue)
      → p.proposed_value ≡ o
      → Steps (vote_on {S = S} env (some p) v)
  vote_known-Steps none p v e = rw e (randomized-Steps v)
  vote_known-Steps (some x) p v e = rw e (pure-Steps _)

  vote-Steps : (p : Option PhaseData) (v : StateValue) → Steps (vote_on {S = S} env p v)
  vote-Steps none v = randomized-Steps v
  vote-Steps (some p) v = vote_known-Steps p.proposed_value p v refl

  add_pending-Steps :
      (now : ℕ) (b : CommandBatch) (n : NodeId)
      → Steps (on_state {S = S} (add_pending_batch now b n))
  add_pending-Steps now b n = on_state-Steps _ (λ s. (add_pending_batch-Grows now b n s).no_phase)

  keep-Steps : (b : Option CommandBatch) (n : NodeId) → Steps (keep_batch {S = S} env b n)
  keep-Steps none n = pure-Steps tt
  keep-Steps (some b) n =
      bind-Steps _ _ (now_millis-Steps env)
        λ now. then-Steps _ _ (add_pending-Steps now b n) (pure-Steps tt)

  pub propose-Steps : (n : NodeId) (m : ProposeMessage) → Steps (handle_propose {S = S} env n m)
  unfolding handle_propose answer_proposal cast_vote send_round1 determine_round1_vote
  propose-Steps n m = bind-Steps _ _ (gets-Steps _) λ quorum.
      if-Steps quorum _ _
        (then-Steps _ _ (keep-Steps m.batch n) (
          bind-Steps _ _ (bind-Steps _ _ (gets-Steps _) λ known. vote-Steps known m.value) λ vote.
            then-Steps _ _ (update-Steps m.phase_id _)
              (bind-Steps _ _ my_id-Steps λ me. send-Steps env _ n (λ id now from. refl))))
        (pure-Steps tt)

  proposed-Steps : (b : BatchId) (c : CommandBatch) → Steps (propose_batch {S = S} env b c)
  unfolding propose_batch propose_in
  proposed-Steps b c =
      bind-Steps _ _ (on_state-Steps _ advance_phase-AddsNoPhase)
        λ p. then-Steps _ _ (update-Steps p _) (broadcast-Steps env _ (λ id now me. refl))

  pub request-Steps : (c : CommandBatch) → Steps (process_batch_request {S = S} env c)
  unfolding process_batch_request
  request-Steps c = bind-Steps _ _ (gets-Steps _) λ quorum.
      if-Steps quorum _ _
        (bind-Steps _ _ (now_millis-Steps env) λ now.
          bind-Steps _ _ my_id-Steps
            λ me. bind-Steps _ _ (add_pending-Steps now c me) λ b. proposed-Steps b c)
        (bind-Steps _ _ (gets-Steps _) λ x. reply-Steps _)

  asked-Steps :
      (r : SyncRequestMessage) (me : NodeId) (ns : List NodeId)
      → Steps (request_from {S = S} env r me ns)
  unfolding request_from
  asked-Steps r me [] = pure-Steps tt
  asked-Steps r me (n ∷ ns) = if-Steps (n == me) _ _ (asked-Steps r me ns) (
      bind_stamp-Steps env _ _
        λ id now from. then-Steps _ _ (transmit-Steps env _ refl) (asked-Steps r me ns))

  pub sync-Steps : Steps (initiate_sync {S = S} env)
  unfolding initiate_sync
  sync-Steps =
      bind-Steps _ _ (gets-Steps _) λ r.
        bind-Steps _ _ my_id-Steps λ me. bind-Steps _ _ (gets-Steps _) λ ns. asked-Steps r me ns

  pub new_batch-Steps :
      (n : NodeId) (m : NewBatchMessage) → Steps (handle_new_batch {S = S} env n m)
  unfolding handle_new_batch
  new_batch-Steps n m =
      bind-Steps _ _ (now_millis-Steps env)
        λ now. then-Steps _ _ (add_pending-Steps now m.batch m.originator) (pure-Steps tt)

  pub heartbeat-Steps : Steps (send_heartbeat {S = S} env)
  unfolding send_heartbeat
  heartbeat-Steps = bind-Steps _ _ (gets-Steps _) λ beat. broadcast-Steps env _ (λ id now me. refl)

  pub advanced-Steps : Steps (advance_to_next_phase {S = S} env)
  unfolding advance_to_next_phase
  advanced-Steps = then-Steps _ _ (on_state-Steps _ advance_phase-AddsNoPhase) (pure-Steps tt)

  pub cleaned-Steps : Steps (cleanup_old_state {S = S} env)
  unfolding cleanup_old_state my_history
  cleaned-Steps =
      bind-Steps (my_history env) _ (record { apply = λ e h. h })
        λ history. bind-Steps _ _ (now_millis-Steps env) λ now.
          then-Steps _ _
            (on_state-Steps _ (λ s. (cleanup_old_phases-Grows (now / 1000) history s).no_phase))
            (bind-Steps _ _ (now_millis-Steps env) λ later.
              then-Steps _ _
                (on_state-Steps _ (λ s. (cleanup_old_pending_batches-Grows later 300 s).no_phase))
                (pure-Steps tt))
