-- ===== src/Engine/Applied.antt =====
-- `handle_decision` of rabia-engine/src/engine.rs and the state machine: decisions that are late,
-- repeated or early.
pub mod Quorum
use rabia.Base.{
  ◌≤◌, ◌<◌, ◌≡◌, refl, Bool, true, false, Option, none, some, arith, ltb, lt→ltb, if◌then◌else◌,
  ◌∙◌,
}
use rabia.Core.Types.{NodeId, BatchId, PhaseId, StateValue, v0, v1, v_question, CommandBatch}
use rabia.Core.Error.{Result, ok, is_ok}
use rabia.Core.Message.{DecisionMessage}
use rabia.Engine.State.{update_phase, commit_phase, commit_loop, remove_pending_batch}
use rabia.Engine.Runtime.{StateMachine, apply_commands, Env, RabiaEngine, M, ◌>>=◌, ◌>>◌}
use rabia.Engine.Decide.{
  run_commands, apply_batch, make_persisted, save_state, commit, commit_batch, learn_decision,
  commit_received, handle_decision,
}

-- Nothing of the state machine or of the counter of commits changes.
record Keeps {S : Type 0} (e f : RabiaEngine S) : Type 0 where
  machine : f.state_machine ≡ e.state_machine
  committed : f.engine_state.last_committed_phase ≡ e.engine_state.last_committed_phase
  current : f.engine_state.current_phase ≡ e.engine_state.current_phase

update_phase-Keeps :
    {S : Type 0} (d : DecisionMessage) (e : RabiaEngine S)
    → Keeps e
        (record e { engine_state = update_phase d.phase_id (learn_decision d) e.engine_state })
unfolding update_phase
update_phase-Keeps d e = record { machine = refl; committed = ground arith; current = ground arith }

module _ {S : Type 0} (sm : StateMachine S) (env : Env) where
  save_state-Keeps : (e : RabiaEngine S) → Keeps e (save_state sm env e).1
  unfolding save_state make_persisted ◌>>◌
  save_state-Keeps e = record {
    machine = ground arith;
    committed = ground arith;
    current = ground arith;
  }

  commit_batch_machine :
      (p : PhaseId) (b : CommandBatch) (e : RabiaEngine S)
      → (commit_batch sm env p b e).1.state_machine
        ≡ (apply_commands sm b.commands e.state_machine).1
  unfolding commit_batch apply_batch run_commands commit commit_phase save_state make_persisted ◌>>◌
  commit_batch_machine p b e = ground arith

  commit_batch_ok :
      (p : PhaseId) (b : CommandBatch) (e : RabiaEngine S)
      → (commit_batch sm env p b e).0 ≡ ok tt
      → p ≤ (commit_batch sm env p b e).1.engine_state.last_committed_phase
  unfolding commit_batch apply_batch run_commands commit commit_phase commit_loop
      remove_pending_batch save_state make_persisted ◌>>◌
  commit_batch_ok p b e h = ground arith

  received_old :
      (d : DecisionMessage) (v : StateValue) (b : Option CommandBatch) (e : RabiaEngine S)
      → d.phase_id ≤ e.engine_state.last_committed_phase
      → (commit_received sm env d v b e).1.state_machine ≡ e.state_machine
  unfolding ◌>>=◌
  received_old d v1 (some b) e h = ground arith
  received_old d v1 none e h = refl
  received_old d v0 b e h = refl
  received_old d v_question b e h = refl

  received_committed :
      (d : DecisionMessage) (b : CommandBatch) (e : RabiaEngine S)
      → (commit_received sm env d v1 (some b) e).0 ≡ ok tt
      → d.phase_id ≤ (commit_received sm env d v1 (some b) e).1.engine_state.last_committed_phase
  unfolding ◌>>=◌
  received_committed d b e h = ground (arith, commit_batch_ok d.phase_id b e)

  received_again :
      (d : DecisionMessage) (v : StateValue) (b : Option CommandBatch) (e f : RabiaEngine S)
      → (commit_received sm env d v b e).0 ≡ ok tt
      → (commit_received sm env d v b e).1.engine_state.last_committed_phase
        ≤ f.engine_state.last_committed_phase
      → (commit_received sm env d v b f).1.state_machine ≡ f.state_machine
  unfolding ◌>>=◌
  received_again d v1 (some b) e f h k =
      received_old d v1 (some b) f (omega (arith, received_committed d b e h))
  received_again d v1 none e f h k = refl
  received_again d v0 b e f h k = refl
  received_again d v_question b e f h k = refl

-- A decision to commit, with its batch.
abbrev pub to_commit : PhaseId → BatchId → CommandBatch → DecisionMessage
to_commit p i b = record { phase_id = p; batch_id = i; decision = v1; batch = some b }

when_true :
    {S A : Type 0} (P : Result A × RabiaEngine S → Type 0) (b : Bool) (m k : M S A)
    (e : RabiaEngine S)
    → b ≡ true
    → P (m e)
    → P ((if b then m else k) e)
when_true P true m k e h p = p
when_true P false m k e h p = absurd (cc h)

module _ {S : Type 0} (sm : StateMachine S) (env : Env) where
  -- A batch is applied too early: in a phase past the current one.
  record TooEarly (b : CommandBatch) (e : RabiaEngine S) (r : Result (Unit {0}) × RabiaEngine S)
      : Type 0 where
    fails : is_ok r.0 ≡ false
    committed : r.1.engine_state.last_committed_phase ≡ e.engine_state.last_committed_phase
    current : r.1.engine_state.current_phase ≡ e.engine_state.current_phase
    machine : r.1.state_machine ≡ (apply_commands sm b.commands e.state_machine).1

  commit_batch-TooEarly :
      (p : PhaseId) (b : CommandBatch) (e : RabiaEngine S)
      → e.engine_state.current_phase < p
      → TooEarly b e (commit_batch sm env p b e)
  unfolding commit_batch apply_batch run_commands commit commit_phase remove_pending_batch ◌>>◌
  commit_batch-TooEarly p b e h = record {
    fails = ground arith;
    committed = ground arith;
    current = ground arith;
    machine = commit_batch_machine sm env p b e;
  }

  handle_decision-TooEarly :
      (from : NodeId) (p : PhaseId) (i : BatchId) (b : CommandBatch) (e : RabiaEngine S)
      → e.engine_state.current_phase < p
      → e.engine_state.last_committed_phase ≤ e.engine_state.current_phase
      → TooEarly b e (handle_decision sm env from (to_commit p i b) e)
  unfolding handle_decision ◌>>◌
  handle_decision-TooEarly from p i b e h k =
      let d = to_commit p i b in
      let e' = record e { engine_state = update_phase p (learn_decision d) e.engine_state } in
      let kept = update_phase-Keeps d e in
      let early = commit_batch-TooEarly p b e' (omega (arith, kept.current)) in
      let past = lt→ltb e'.engine_state.last_committed_phase p (omega (arith, kept.committed)) in
      when_true (TooEarly b e) (ltb e'.engine_state.last_committed_phase p)
        (commit_batch sm env p b) _ e' past
        (record {
          fails = early.fails;
          committed = early.committed ∙ kept.committed;
          current = early.current ∙ kept.current;
          machine = early.machine;
        })

-- A decision for a phase that is not past the last commit does not touch the state machine.
pub handle_decision_old :
    {S : Type 0} (sm : StateMachine S) (env : Env) (from : NodeId) (d : DecisionMessage)
    (e : RabiaEngine S)
    → d.phase_id ≤ e.engine_state.last_committed_phase
    → (handle_decision sm env from d e).1.state_machine ≡ e.state_machine
unfolding handle_decision ◌>>◌ update_phase
handle_decision_old sm env from d e h =
    let s = update_phase d.phase_id (learn_decision d) e.engine_state in
    received_old sm env d d.decision d.batch (record e { engine_state = s })
      (omega (arith, (update_phase-Keeps d e).committed))

-- A decision that was handled well is applied once: when it is delivered again, to the same engine
-- after whatever has not lowered the counter of commits, the state machine is left as it is.
pub handle_decision_twice :
    {S : Type 0} (sm : StateMachine S) (env : Env) (from again : NodeId) (d : DecisionMessage)
    (e f : RabiaEngine S)
    → (handle_decision sm env from d e).0 ≡ ok tt
    → (handle_decision sm env from d e).1.engine_state.last_committed_phase
      ≤ f.engine_state.last_committed_phase
    → (handle_decision sm env again d f).1.state_machine ≡ f.state_machine
unfolding handle_decision ◌>>◌
handle_decision_twice sm env from again d e f h k =
    let s = update_phase d.phase_id (learn_decision d) e.engine_state in
    let t = update_phase d.phase_id (learn_decision d) f.engine_state in
    received_again sm env d d.decision d.batch (record e { engine_state = s })
      (record f { engine_state = t }) h (omega (arith, (update_phase-Keeps d f).committed))

-- A decision to commit that comes before the engine has reached its phase: the batch is applied to
-- the state machine, then the handler fails and the counter of commits stays where it was, so that
-- the batch is applied once more when the decision is delivered again.
pub early_decision_applied_twice :
    {S : Type 0} (sm : StateMachine S) (env : Env) (from : NodeId) (p : PhaseId) (i : BatchId)
    (b : CommandBatch) (e : RabiaEngine S)
    → e.engine_state.current_phase < p
    → e.engine_state.last_committed_phase ≤ e.engine_state.current_phase
    → let first = handle_decision sm env from (to_commit p i b) e in
      let second = handle_decision sm env from (to_commit p i b) first.1 in
      (is_ok first.0 ≡ false)
      × (first.1.engine_state.last_committed_phase ≡ e.engine_state.last_committed_phase)
      × (first.1.state_machine ≡ (apply_commands sm b.commands e.state_machine).1)
      × (second.1.state_machine ≡ (apply_commands sm b.commands first.1.state_machine).1)
early_decision_applied_twice sm env from p i b e h k =
    let first = handle_decision-TooEarly sm env from p i b e h k in
    let e' = (handle_decision sm env from (to_commit p i b) e).1 in
    let second =
      handle_decision-TooEarly sm env from p i b e' (omega (arith, first.current))
        (omega (arith, first.current, first.committed)) in
    (first.fails, first.committed, first.machine, second.machine)
