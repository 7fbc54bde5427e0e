-- ===== src/Engine/Decide.antt =====
-- rabia-engine/src/engine.rs: the end of a phase. A batch that is decided on is applied to the
-- state machine, its phase is committed, and the state is saved.
use rabia.Base.{Bool, List, [], ◌∷◌, Option, none, some, ltb, if◌then◌else◌, is_none}
use rabia.Core.Types.{NodeId, BatchId, PhaseId, Bytes, StateValue, v1, CommandBatch}
use rabia.Core.Error.{Result, ok, err, internal, format}
use rabia.Core.Message.{DecisionMessage, decision_message}
use rabia.Core.Phase.{PhaseData, set_decision}
use rabia.Engine.State.{get_phase, update_phase, commit_phase, remove_pending_batch}
use rabia.Engine.Runtime.{
  StateMachine, apply_commands, Env, PersistedState, broadcast, RabiaEngine, M, pure, lift, gets,
  on_state, ◌>>=◌, ◌>>◌, modify, ignore_error, my_id, new_uuid, transmit, store_bytes, stamp,
}

module _ {S : Type 0} (sm : StateMachine S) where
  -- `self.state_machine.lock().await.apply_commands(..)`
  unfoldable pub run_commands : CommandBatch → M S (List Bytes)
  run_commands b e =
      let (r, s) = apply_commands sm b.commands e.state_machine in
      (r, record e { state_machine = s })

  unfoldable pub apply_batch : CommandBatch → M S (Unit {0})
  apply_batch b = do run_commands b; on_state (remove_pending_batch b.id); pure tt

abbrev pub learn_decision : DecisionMessage → PhaseData → PhaseData
learn_decision d phase =
    let decided = set_decision d.decision phase in
    record decided { batch = if is_none decided.batch then d.batch else decided.batch }

-- `BatchId::default` is a new random identifier.
abbrev pub batch_id_or_new : {S : Type 0} → Env → Option BatchId → M S BatchId
batch_id_or_new env (some b) = pure b
batch_id_or_new env none = new_uuid env

module _ {S : Type 0} (sm : StateMachine S) (env : Env) where
  abbrev pub snapshot_of : RabiaEngine S → Result PersistedState
  snapshot_of e = elim (sm.create_snapshot e.state_machine) [
    | err x ↦ err x
    | ok snapshot ↦ ok (record {
      current_phase = e.engine_state.current_phase;
      last_committed_phase = e.engine_state.last_committed_phase;
      snapshot = some snapshot;
    })
  ]

  unfoldable pub make_persisted : M S PersistedState
  make_persisted e = (snapshot_of e, e)

  unfoldable pub save_state : M S (Unit {0})
  save_state = do
    persisted ← make_persisted
    bytes ← lift (env.to_bytes persisted)
    store_bytes env bytes

  -- A commit that nothing interferes with.
  unfoldable pub commit : PhaseId → M S Bool
  commit phase_id e =
      let (r, s) = commit_phase phase_id [] e.engine_state in (r, record e { engine_state = s })

  -- Apply, commit, and save; a failure to save is only logged.
  unfoldable pub commit_batch : PhaseId → CommandBatch → M S (Unit {0})
  commit_batch phase_id b = do apply_batch sm b; commit phase_id; ignore_error save_state

  abbrev pub or_internal : Option PhaseData → PhaseId → M S PhaseData
  or_internal (some p) phase_id = pure p
  or_internal none phase_id =
      lift (err (internal (format "Phase {} not found for decision broadcast" (phase_id ∷ []))))

  -- The batch of the phase, if the decision is to commit and the phase is known with its batch.
  abbrev pub commit_decided : PhaseId → StateValue → Option PhaseData → M S (Unit {0})
  commit_decided phase_id v1 (some phase) = elim phase.batch [
    | some b ↦ commit_batch phase_id b
    | none ↦ pure tt
  ]
  commit_decided phase_id _ _ = pure tt

  unfoldable pub make_decision : PhaseId → StateValue → M S (Unit {0})
  make_decision phase_id decision = do
    modify (update_phase phase_id (set_decision decision))
    known ← gets (get_phase phase_id)
    commit_decided phase_id decision known
    after ← gets (get_phase phase_id)
    phase ← or_internal after phase_id
    batch_id ← batch_id_or_new env phase.batch_id
    message ← stamp env (λ id now me. decision_message id now me (record {
      phase_id = phase_id;
      batch_id = batch_id;
      decision = decision;
      batch = phase.batch;
    }))
    me ← my_id
    transmit env (broadcast message (some me))

  -- The batch of the message, if the decision is to commit and the phase is past the last commit.
  abbrev pub commit_received : DecisionMessage → StateValue → Option CommandBatch → M S (Unit {0})
  commit_received d v1 (some b) = do
    last_committed ← gets (λ s. s.last_committed_phase)
    if ltb last_committed d.phase_id then commit_batch d.phase_id b else pure tt
  commit_received d _ _ = pure tt

  unfoldable pub handle_decision : NodeId → DecisionMessage → M S (Unit {0})
  handle_decision from d = do
    modify (update_phase d.phase_id (learn_decision d))
    commit_received d d.decision d.batch
