-- ===== src/Engine/Voting.antt =====
-- rabia-engine/src/engine.rs: proposals and the two rounds of voting. A draw of the random
-- generator is a question to the surroundings.
use rabia.Base.{ℕ, Option, none, some, leb, ltb, if◌then◌else◌, is_none, length}
use rabia.Base.Assoc.{Assoc, values}
use rabia.Core.Types.{
  NodeId, BatchId, PhaseId, StateValue, v0, v1, v_question, value_eq, CommandBatch,
}
use rabia.Core.Error.{quorum_not_available}
use rabia.Core.Message.{
  ProposeMessage, VoteRound1Message, VoteRound2Message, propose_message, vote_round1_message,
  vote_round2_message,
}
use rabia.Core.Phase.{
  PhaseData, add_round1_vote, add_round2_vote, has_round1_majority, has_round2_majority,
}
use rabia.Core.Phase.Count.{votes_for}
use rabia.Engine.State.{advance_phase, add_pending_batch, get_phase, update_phase}
use rabia.Engine.Runtime.{
  StateMachine, Env, send_to, broadcast, failed, M, pure, gets, on_state, ◌>>=◌, ◌>>◌, modify,
  reply, my_id, now_millis, gen_bool, transmit, stamp,
}
use rabia.Engine.Decide.{batch_id_or_new, make_decision}

-- What a proposal writes into its phase, at the proposer and at the other nodes.
abbrev pub set_proposal : BatchId → StateValue → CommandBatch → PhaseData → PhaseData
set_proposal batch_id value b phase = record phase {
  batch_id = some batch_id;
  proposed_value = some value;
  batch = some b;
}

abbrev pub learn_proposal : ProposeMessage → PhaseData → PhaseData
learn_proposal m phase = record phase {
  batch_id = some m.batch_id;
  proposed_value = if is_none phase.proposed_value then some m.value else phase.proposed_value;
  batch = if is_none phase.batch then m.batch else phase.batch;
}

abbrev pub batch_of : Option PhaseData → Option BatchId
batch_of none = none
batch_of (some p) = p.batch_id

module _ {S : Type 0} (env : Env) where
  -- The rest of `propose_batch`, in the phase that it has taken.
  unfoldable pub propose_in : PhaseId → BatchId → CommandBatch → M S (Unit {0})
  propose_in phase_id batch_id b = do
    modify (update_phase phase_id (set_proposal batch_id v1 b))
    message ← stamp env (λ id now me.
        propose_message id now me
          (record { phase_id = phase_id; batch_id = batch_id; value = v1; batch = some b }))
    me ← my_id
    transmit env (broadcast message (some me))

  unfoldable pub propose_batch : BatchId → CommandBatch → M S (Unit {0})
  propose_batch batch_id b = do phase_id ← on_state advance_phase; propose_in phase_id batch_id b

  abbrev pub accept_batch : CommandBatch → M S (Unit {0})
  accept_batch b = do
    now ← now_millis env
    me ← my_id
    batch_id ← on_state (add_pending_batch now b me)
    propose_batch batch_id b

  abbrev pub refuse_batch : M S (Unit {0})
  refuse_batch = do
    error ← gets (λ s. quorum_not_available (length s.active_nodes) s.quorum_size)
    reply (failed error)

  -- A batch from a client: refused without a quorum, else pending and proposed. The answer to the
  -- client is not sent from here, nor from anywhere else.
  unfoldable pub process_batch_request : CommandBatch → M S (Unit {0})
  process_batch_request b = do
    quorum ← gets (λ s. s.has_quorum)
    if quorum then accept_batch b else refuse_batch

  -- One draw: the first value with the given chances in ten, else the second.
  abbrev pub draw : ℕ → StateValue → StateValue → M S StateValue
  draw tenths yes_value no_value = do
    lucky ← gen_bool env tenths
    pure (if lucky then yes_value else no_value)

  unfoldable pub randomized_vote : StateValue → M S StateValue
  randomized_vote v0 = draw 7 v0 v_question
  randomized_vote v1 = draw 8 v1 v_question
  randomized_vote v_question = pure v_question

  -- The match on what the node knows of the phase.
  abbrev pub vote_on : Option PhaseData → StateValue → M S StateValue
  vote_on none value = randomized_vote value
  vote_on (some phase) value = elim phase.proposed_value [
    | none ↦ randomized_vote value
    | some existing ↦ pure (if value_eq existing value then value else v_question)
  ]

  unfoldable pub determine_round1_vote : ProposeMessage → M S StateValue
  determine_round1_vote m = do known ← gets (get_phase m.phase_id); vote_on known m.value

  abbrev pub keep_batch : Option CommandBatch → NodeId → M S (Unit {0})
  keep_batch none from = pure tt
  keep_batch (some b) from = do
    now ← now_millis env
    on_state (add_pending_batch now b from)
    pure tt

  -- The proposal is put on file, and the vote sent.
  unfoldable pub send_round1 : NodeId → ProposeMessage → StateValue → M S (Unit {0})
  send_round1 from m vote = do
    modify (update_phase m.phase_id (learn_proposal m))
    me ← my_id
    message ← stamp env (λ id now me.
        vote_round1_message id now me from
          (record { phase_id = m.phase_id; batch_id = m.batch_id; vote = vote; voter_id = me }))
    transmit env (send_to from message)

  -- The vote on a proposal whose batch is kept.
  unfoldable pub cast_vote : NodeId → ProposeMessage → M S (Unit {0})
  cast_vote from m = determine_round1_vote m >>= send_round1 from m

  -- The part of `handle_propose` behind its guard.
  unfoldable pub answer_proposal : NodeId → ProposeMessage → M S (Unit {0})
  answer_proposal from m = do keep_batch m.batch from; cast_vote from m

  unfoldable pub handle_propose : NodeId → ProposeMessage → M S (Unit {0})
  handle_propose from m = do
    quorum ← gets (λ s. s.has_quorum)
    if quorum then answer_proposal from m else pure tt

  unfoldable pub determine_round2_vote_for_question : Assoc StateValue → M S StateValue
  determine_round2_vote_for_question round1_votes =
      let v0_count = votes_for v0 (values round1_votes) in
      let v1_count = votes_for v1 (values round1_votes) in
      if ltb v0_count v1_count
      then draw 9 v1 v0
      else if ltb v1_count v0_count
      then draw 9 v0 v1
      else draw 8 v1 v0

  abbrev pub round2_vote : StateValue → Assoc StateValue → M S StateValue
  round2_vote v0 votes = pure v0
  round2_vote v1 votes = pure v1
  round2_vote v_question votes = determine_round2_vote_for_question votes

  -- The broadcast of a second-round vote, under the batch's identifier or a new one.
  abbrev pub send_round2 : PhaseId → StateValue → Assoc StateValue → Option BatchId → M S (Unit {0})
  send_round2 phase_id vote round1_votes known_id = do
    batch_id ← batch_id_or_new env known_id
    message ← stamp env (λ id now me. vote_round2_message id now me me (record {
      phase_id = phase_id;
      batch_id = batch_id;
      vote = vote;
      voter_id = me;
      round1_votes = round1_votes;
    }))
    me ← my_id
    transmit env (broadcast message (some me))

  -- The vote is put on file, and broadcast.
  unfoldable pub cast_round2 : PhaseId → Assoc StateValue → StateValue → M S (Unit {0})
  cast_round2 phase_id round1_votes vote = do
    me ← my_id
    modify (update_phase phase_id (add_round2_vote me vote))
    known ← gets (get_phase phase_id)
    send_round2 phase_id vote round1_votes (batch_of known)

  unfoldable pub proceed_to_round2 : PhaseId → StateValue → Assoc StateValue → M S (Unit {0})
  proceed_to_round2 phase_id round1_result round1_votes =
      round2_vote round1_result round1_votes >>= cast_round2 phase_id round1_votes

  -- The tests after a first-round vote is in: a majority, or a quorum of votes without one.
  abbrev pub check_round1 : PhaseId → ℕ → Option PhaseData → M S (Unit {0})
  check_round1 phase_id quorum_size none = pure tt
  check_round1 phase_id quorum_size (some phase) = elim (has_round1_majority quorum_size phase) [
    | some majority_vote ↦ proceed_to_round2 phase_id majority_vote phase.round1_votes
    | none ↦
        if leb quorum_size (length phase.round1_votes)
        then proceed_to_round2 phase_id v_question phase.round1_votes
        else pure tt
  ]

  unfoldable pub handle_vote_round1 : NodeId → VoteRound1Message → M S (Unit {0})
  handle_vote_round1 from m = do
    modify (update_phase m.phase_id (add_round1_vote from m.vote))
    known ← gets (get_phase m.phase_id)
    quorum_size ← gets (λ s. s.quorum_size)
    check_round1 m.phase_id quorum_size known

module _ {S : Type 0} (sm : StateMachine S) (env : Env) where
  abbrev pub check_round2 : PhaseId → ℕ → Option PhaseData → M S (Unit {0})
  check_round2 phase_id quorum_size none = pure tt
  check_round2 phase_id quorum_size (some phase) = elim (has_round2_majority quorum_size phase) [
    | some decision ↦ make_decision sm env phase_id decision
    | none ↦ pure tt
  ]

  unfoldable pub handle_vote_round2 : NodeId → VoteRound2Message → M S (Unit {0})
  handle_vote_round2 from m = do
    modify (update_phase m.phase_id (add_round2_vote from m.vote))
    known ← gets (get_phase m.phase_id)
    quorum_size ← gets (λ s. s.quorum_size)
    check_round2 m.phase_id quorum_size known
