-- ===== src/Engine/Growth/Decisions.antt =====
-- Decisions of rabia-engine/src/engine.rs as changes of the kind `Grows`.
use rabia.Base.{◌≡◌, refl, Option, none, some, ltb}
use rabia.Core.Types.{NodeId, PhaseId, StateValue, v1, CommandBatch}
use rabia.Core.Message.{DecisionMessage}
use rabia.Core.Phase.{PhaseData, set_decision}
use rabia.Engine.Runtime.{StateMachine, Env}
use rabia.Engine.Decide.{
  run_commands, apply_batch, make_persisted, commit, save_state, commit_batch, commit_decided,
  make_decision, learn_decision, commit_received, handle_decision, or_internal,
}
use rabia.Engine.Change.{
  Steps, bind-Steps, then-Steps, ignore_error-Steps, if-Steps, pure-Steps, lift-Steps, gets-Steps,
  my_id-Steps, store_bytes-Steps, stamp-Steps,
}
use rabia.Engine.Growth.{Grows-refl, commit_phase-Grows, remove_pending_batch-Grows}
use rabia.Engine.Growth.Rules.{
  growth, on_state-Steps, transmit-Steps, update_phase-Steps, batch_id_or_new-Steps,
  set_decision-phase_id,
}

module _ {S : Type 0} (sm : StateMachine S) where
  pub run_commands-Steps : (b : CommandBatch) → Steps (run_commands sm b)
  unfolding run_commands
  run_commands-Steps b = record { apply = λ e. Grows-refl e.engine_state }

  pub apply_batch-Steps : (b : CommandBatch) → Steps (apply_batch sm b)
  unfolding apply_batch
  apply_batch-Steps b =
      then-Steps _ _ (run_commands-Steps b)
        (then-Steps _ _ (on_state-Steps _ (remove_pending_batch-Grows b.id)) (pure-Steps tt))

module _ {S : Type 0} (sm : StateMachine S) (env : Env) where
  pub make_persisted-Steps : Steps (make_persisted sm env)
  unfolding make_persisted
  make_persisted-Steps = record { apply = λ e. Grows-refl e.engine_state }

  pub save_state-Steps : Steps (save_state sm env)
  unfolding save_state
  save_state-Steps =
      bind-Steps _ _ make_persisted-Steps
        λ p. bind-Steps _ _ (lift-Steps _) λ b. store_bytes-Steps env b

  pub commit-Steps : (p : PhaseId) → Steps (commit sm env p)
  unfolding commit
  commit-Steps p = record { apply = λ e. commit_phase-Grows p e.engine_state }

  pub commit_batch-Steps : (p : PhaseId) (b : CommandBatch) → Steps (commit_batch sm env p b)
  unfolding commit_batch
  commit_batch-Steps p b =
      then-Steps _ _ (apply_batch-Steps sm b)
        (then-Steps _ _ (commit-Steps p) (ignore_error-Steps _ save_state-Steps))

  pub commit_some-Steps :
      (p : PhaseId) (b : Option CommandBatch) (phase : PhaseData)
      → phase.batch ≡ b
      → Steps (commit_decided sm env p v1 (some phase))
  commit_some-Steps p none phase e = rw e (pure-Steps tt)
  commit_some-Steps p (some b) phase e = rw e (commit_batch-Steps p b)

  pub commit_decided-Steps :
      (p : PhaseId) (v : StateValue) (d : Option PhaseData) → Steps (commit_decided sm env p v d)
  commit_decided-Steps p v1 (some d) = commit_some-Steps p d.batch d refl
  commit_decided-Steps p _ _ = pure-Steps tt

  pub or_internal-Steps : (d : Option PhaseData) (p : PhaseId) → Steps (or_internal sm env d p)
  or_internal-Steps none p = lift-Steps _
  or_internal-Steps (some d) p = pure-Steps d

  pub make_decision-Steps : (p : PhaseId) (v : StateValue) → Steps (make_decision sm env p v)
  unfolding make_decision
  make_decision-Steps p v =
      then-Steps _ _ (update_phase-Steps p (set_decision v) (set_decision-phase_id v)) (
        bind-Steps _ _ (gets-Steps _) λ known. then-Steps _ _ (commit_decided-Steps p v known) (
          bind-Steps _ _ (gets-Steps _) λ after. bind-Steps _ _ (or_internal-Steps after p) λ phase.
            bind-Steps _ _ (batch_id_or_new-Steps env phase.batch_id) λ batch_id.
              bind-Steps _ _ (stamp-Steps env _)
                λ m. bind-Steps _ _ my_id-Steps λ me. transmit-Steps env _))

  pub commit_received-Steps :
      (d : DecisionMessage) (v : StateValue) (b : Option CommandBatch)
      → Steps (commit_received sm env d v b)
  commit_received-Steps d v1 (some b) =
      bind-Steps _ _ (gets-Steps _)
        λ last. if-Steps (ltb last d.phase_id) _ _ (commit_batch-Steps d.phase_id b) (pure-Steps tt)
  commit_received-Steps d _ _ = pure-Steps tt

  pub handle_decision-Steps :
      (n : NodeId) (d : DecisionMessage) → Steps (handle_decision sm env n d)
  unfolding handle_decision
  handle_decision-Steps n d =
      then-Steps _ _
        (update_phase-Steps d.phase_id (learn_decision d) (set_decision-phase_id d.decision))
        (commit_received-Steps d d.decision d.batch)
