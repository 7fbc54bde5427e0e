-- ===== src/Engine/Growth/Votes.antt =====
-- Proposals and votes of rabia-engine/src/engine.rs as changes of the kind `Grows`.
use rabia.Base.{ℕ, ◌≡◌, refl, Option, none, some, ltb, leb, length}
use rabia.Base.Assoc.{Assoc, values}
use rabia.Core.Types.{NodeId, PhaseId, StateValue, v0, v1, v_question, CommandBatch}
use rabia.Core.Message.{ProposeMessage, VoteRound1Message, VoteRound2Message}
use rabia.Core.Phase.{
  PhaseData, add_round1_vote, add_round2_vote, has_round1_majority, has_round2_majority,
}
use rabia.Core.Phase.Count.{votes_for}
use rabia.Engine.Runtime.{StateMachine, Env}
use rabia.Engine.Voting.{
  learn_proposal, draw, randomized_vote, vote_on, determine_round1_vote, keep_batch, cast_vote,
  send_round1, answer_proposal, handle_propose, batch_of, determine_round2_vote_for_question,
  round2_vote, proceed_to_round2, cast_round2, check_round1, handle_vote_round1, check_round2,
  handle_vote_round2,
}
use rabia.Engine.Change.{
  Steps, bind-Steps, then-Steps, if-Steps, pure-Steps, gets-Steps, my_id-Steps, now_millis-Steps,
  gen_bool-Steps, stamp-Steps,
}
use rabia.Engine.Growth.Rules.{
  growth, transmit-Steps, update_phase-Steps, add_pending-Steps, batch_id_or_new-Steps,
  add_round1_vote-phase_id, add_round2_vote-phase_id,
}
use rabia.Engine.Growth.Decisions.{make_decision-Steps}

module _ {S : Type 0} (env : Env) where
  pub draw-Steps : (n : ℕ) (v w : StateValue) → Steps (draw {S = S} env n v w)
  draw-Steps n v w = bind-Steps _ _ (gen_bool-Steps env n) λ lucky. pure-Steps _

  pub randomized_vote-Steps : (v : StateValue) → Steps (randomized_vote {S = S} env v)
  unfolding randomized_vote
  randomized_vote-Steps v0 = draw-Steps 7 v0 v_question
  randomized_vote-Steps v1 = draw-Steps 8 v1 v_question
  randomized_vote-Steps v_question = pure-Steps v_question

  pub vote_on-some-Steps :
      (o : Option StateValue) (p : PhaseData) (v : StateValue)
      → p.proposed_value ≡ o
      → Steps (vote_on {S = S} env (some p) v)
  vote_on-some-Steps none p v e = rw e (randomized_vote-Steps v)
  vote_on-some-Steps (some x) p v e = rw e (pure-Steps _)

  pub vote_on-Steps : (p : Option PhaseData) (v : StateValue) → Steps (vote_on {S = S} env p v)
  vote_on-Steps none v = randomized_vote-Steps v
  vote_on-Steps (some p) v = vote_on-some-Steps p.proposed_value p v refl

  pub keep_batch-Steps : (b : Option CommandBatch) (n : NodeId) → Steps (keep_batch {S = S} env b n)
  keep_batch-Steps none n = pure-Steps tt
  keep_batch-Steps (some b) n =
      bind-Steps _ _ (now_millis-Steps env)
        λ now. then-Steps _ _ (add_pending-Steps now b n) (pure-Steps tt)

  pub answer_proposal-Steps :
      (n : NodeId) (m : ProposeMessage) → Steps (answer_proposal {S = S} env n m)
  unfolding answer_proposal cast_vote send_round1 determine_round1_vote
  answer_proposal-Steps n m = then-Steps _ _ (keep_batch-Steps m.batch n) (
      bind-Steps _ _ (bind-Steps _ _ (gets-Steps _) λ known. vote_on-Steps known m.value) λ vote.
        then-Steps _ _ (update_phase-Steps m.phase_id (learn_proposal m) (λ d. refl)) (
          bind-Steps _ _ my_id-Steps
            λ me. bind-Steps _ _ (stamp-Steps env _) λ m. transmit-Steps env _))

  pub handle_propose-Steps :
      (n : NodeId) (m : ProposeMessage) → Steps (handle_propose {S = S} env n m)
  unfolding handle_propose
  handle_propose-Steps n m =
      bind-Steps _ _ (gets-Steps _)
        λ quorum. if-Steps quorum _ _ (answer_proposal-Steps n m) (pure-Steps tt)

  pub round2_vote-Steps :
      (v : StateValue) (votes : Assoc StateValue) → Steps (round2_vote {S = S} env v votes)
  unfolding determine_round2_vote_for_question
  round2_vote-Steps v0 votes = pure-Steps v0
  round2_vote-Steps v1 votes = pure-Steps v1
  round2_vote-Steps v_question votes =
      let v0_count = votes_for v0 (values votes) in
      let v1_count = votes_for v1 (values votes) in
      if-Steps (ltb v0_count v1_count) _ _ (draw-Steps 9 v1 v0)
        (if-Steps (ltb v1_count v0_count) _ _ (draw-Steps 9 v0 v1) (draw-Steps 8 v1 v0))

  pub proceed_to_round2-Steps :
      (p : PhaseId) (v : StateValue) (votes : Assoc StateValue)
      → Steps (proceed_to_round2 {S = S} env p v votes)
  unfolding proceed_to_round2 cast_round2
  proceed_to_round2-Steps p v votes = bind-Steps _ _ (round2_vote-Steps v votes) λ vote.
      bind-Steps _ _ my_id-Steps λ me.
        then-Steps _ _
          (update_phase-Steps p (add_round2_vote me vote) (add_round2_vote-phase_id me vote))
          (bind-Steps _ _ (gets-Steps _) λ known.
            bind-Steps _ _ (batch_id_or_new-Steps env (batch_of known)) λ batch_id.
              bind-Steps _ _ (stamp-Steps env _)
                λ m. bind-Steps _ _ my_id-Steps λ to. transmit-Steps env _)

  pub check_some1-Steps :
      (p : PhaseId) (q : ℕ) (d : PhaseData) (o : Option StateValue)
      → has_round1_majority q d ≡ o
      → Steps (check_round1 {S = S} env p q (some d))
  check_some1-Steps p q d none e =
      rw (e, check_round1)
        (if-Steps (leb q (length d.round1_votes)) _ _
          (proceed_to_round2-Steps p v_question d.round1_votes) (pure-Steps tt))
  check_some1-Steps p q d (some v) e =
      rw (e, check_round1) (proceed_to_round2-Steps p v d.round1_votes)

  pub check_round1-Steps :
      (p : PhaseId) (q : ℕ) (d : Option PhaseData) → Steps (check_round1 {S = S} env p q d)
  check_round1-Steps p q none = pure-Steps tt
  check_round1-Steps p q (some d) = check_some1-Steps p q d (has_round1_majority q d) refl

  pub handle_vote_round1-Steps :
      (n : NodeId) (m : VoteRound1Message) → Steps (handle_vote_round1 {S = S} env n m)
  unfolding handle_vote_round1
  handle_vote_round1-Steps n m =
      then-Steps _ _
        (update_phase-Steps m.phase_id (add_round1_vote n m.vote)
          (add_round1_vote-phase_id n m.vote))
        (bind-Steps _ _ (gets-Steps _)
          λ known. bind-Steps _ _ (gets-Steps _) λ q. check_round1-Steps m.phase_id q known)

module _ {S : Type 0} (sm : StateMachine S) (env : Env) where
  pub check_some2-Steps :
      (p : PhaseId) (q : ℕ) (d : PhaseData) (o : Option StateValue)
      → has_round2_majority q d ≡ o
      → Steps (check_round2 sm env p q (some d))
  check_some2-Steps p q d none e = rw (e, check_round2) (pure-Steps tt)
  check_some2-Steps p q d (some v) e = rw (e, check_round2) (make_decision-Steps sm env p v)

  pub check_round2-Steps :
      (p : PhaseId) (q : ℕ) (d : Option PhaseData) → Steps (check_round2 sm env p q d)
  check_round2-Steps p q none = pure-Steps tt
  check_round2-Steps p q (some d) = check_some2-Steps p q d (has_round2_majority q d) refl

  pub handle_vote_round2-Steps :
      (n : NodeId) (m : VoteRound2Message) → Steps (handle_vote_round2 sm env n m)
  unfolding handle_vote_round2
  handle_vote_round2-Steps n m =
      then-Steps _ _
        (update_phase-Steps m.phase_id (add_round2_vote n m.vote)
          (add_round2_vote-phase_id n m.vote))
        (bind-Steps _ _ (gets-Steps _)
          λ known. bind-Steps _ _ (gets-Steps _) λ q. check_round2-Steps m.phase_id q known)
