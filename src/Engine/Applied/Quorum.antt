-- ===== src/Engine/Applied/Quorum.antt =====
-- `handle_vote_round2` of rabia-engine/src/engine.rs and the state machine.
use rabia.Base.{ℕ, ◌<◌, ◌≡◌, refl, ◌∙◌, false, Option, none, some, arith}
use rabia.Base.Assoc.{values, insert}
use rabia.Core.Types.{NodeId, PhaseId, StateValue, v0, v1, v_question, value_eq}
use rabia.Core.Message.{VoteRound2Message}
use rabia.Core.Phase.{PhaseData, add_round2_vote, has_round2_majority}
use rabia.Core.Phase.Count.{votes_for, count_votes_sound}
use rabia.Engine.State.{EngineState, get_phase, update_phase}
use rabia.Engine.State.Cleanup.{get-update_same}
use rabia.Engine.Runtime.{StateMachine, Env, Packet, RabiaEngine, modify, transmit, ◌>>◌}
use rabia.Engine.Decide.{commit_decided, or_internal, batch_id_or_new, make_decision}
use rabia.Engine.Voting.{check_round2, handle_vote_round2}
use rabia.Engine.Change.{
  Change, Steps, bind-Steps, then-Steps, pure-Steps, lift-Steps, gets-Steps, my_id-Steps,
  new_uuid-Steps, stamp-Steps,
}

instance abbrev same_machine : {S : Type 0} → Change S
same_machine = record {
  Rel = λ e f. f.state_machine ≡ e.state_machine;
  same = λ e. refl;
  join = λ e f g h k. k ∙ h;
  asks = λ e k. refl;
  saves = λ e k b. refl;
  answers = λ e rs. refl;
}

module _ {S : Type 0} (sm : StateMachine S) (env : Env) where
  changed-Steps : (f : EngineState → EngineState) → Steps (modify {S = S} f)
  unfolding modify
  changed-Steps f = record { apply = λ e. refl }

  sent-Steps : (p : Packet) → Steps (transmit {S = S} env p)
  unfolding transmit
  sent-Steps p = record { apply = λ e. refl }

  skipped-Steps :
      (p : PhaseId) (v : StateValue) (d : Option PhaseData)
      → value_eq v v1 ≡ false
      → Steps (commit_decided sm env p v d)
  skipped-Steps p v0 d h = pure-Steps tt
  skipped-Steps p v_question d h = pure-Steps tt
  skipped-Steps p v1 d h = absurd (cc h)

  known-Steps : (d : Option PhaseData) (p : PhaseId) → Steps (or_internal sm env d p)
  known-Steps none p = lift-Steps _
  known-Steps (some d) p = pure-Steps d

  batch_id-Steps : (b : Option ℕ) → Steps (batch_id_or_new {S = S} env b)
  batch_id-Steps none = new_uuid-Steps env
  batch_id-Steps (some b) = pure-Steps b

  make_decision-Steps :
      (p : PhaseId) (v : StateValue) → value_eq v v1 ≡ false → Steps (make_decision sm env p v)
  unfolding make_decision
  make_decision-Steps p v h = then-Steps _ _ (changed-Steps _) (
      bind-Steps _ _ (gets-Steps _) λ known. then-Steps _ _ (skipped-Steps p v known h) (
        bind-Steps _ _ (gets-Steps _) λ after. bind-Steps _ _ (known-Steps after p) λ phase.
          bind-Steps _ _ (batch_id-Steps phase.batch_id) λ b.
            bind-Steps _ _ (stamp-Steps env _) λ m. bind-Steps _ _ my_id-Steps λ me. sent-Steps _))

  checked-Steps :
      (p : PhaseId) (q : ℕ) (d : PhaseData) (o : Option StateValue)
      → has_round2_majority q d ≡ o
      → votes_for v1 (values d.round2_votes) < q
      → Steps (check_round2 sm env p q (some d))
  unfolding has_round2_majority
  checked-Steps p q d none e h = rw (e, check_round2) (pure-Steps tt)
  checked-Steps p q d (some v1) e h =
      absurd (omega (arith, count_votes_sound d.round2_votes q v1 e))
  checked-Steps p q d (some v0) e h = rw (e, check_round2) (make_decision-Steps p v0 refl)
  checked-Steps p q d (some v_question) e h =
      rw (e, check_round2) (make_decision-Steps p v_question refl)

  known_phase-Steps :
      (p : PhaseId) (q : ℕ) (o : Option PhaseData) (d : PhaseData)
      → o ≡ some d
      → votes_for v1 (values d.round2_votes) < q
      → Steps (check_round2 sm env p q o)
  known_phase-Steps p q o d k h = rw k (checked-Steps p q d (has_round2_majority q d) refl h)

quorum_size-update_phase :
    (p : PhaseId) (f : PhaseData → PhaseData) (s : EngineState)
    → (update_phase p f s).quorum_size ≡ s.quorum_size
unfolding update_phase
quorum_size-update_phase p f s = ground arith

-- A second-round vote touches the state machine only where, with it, a quorum of nodes has voted v1
-- in its phase: with fewer such votes on file, whatever the others are, the state machine is left as
-- it is.
pub handle_vote_round2_quorum :
    {S : Type 0} (sm : StateMachine S) (env : Env) (from : NodeId) (m : VoteRound2Message)
    (d : PhaseData) (e : RabiaEngine S)
    → get_phase m.phase_id e.engine_state ≡ some d
    → votes_for v1 (values (insert from m.vote d.round2_votes)) < e.engine_state.quorum_size
    → (handle_vote_round2 sm env from m e).1.state_machine ≡ e.state_machine
unfolding handle_vote_round2 add_round2_vote ◌>>◌
handle_vote_round2_quorum sm env from m d e h k =
    let f = add_round2_vote from m.vote in
    let s = update_phase m.phase_id f e.engine_state in
    (known_phase-Steps sm env m.phase_id s.quorum_size (get_phase m.phase_id s) (f d)
        (get-update_same m.phase_id f e.engine_state (some d) h)
        (omega (arith, quorum_size-update_phase m.phase_id f e.engine_state))).apply
      (record e { engine_state = s })
