-- ===== src/Engine/Growth/Turns.antt =====
-- Commands, messages and turns of rabia-engine/src/engine.rs as changes of the kind `Grows`.
use rabia.Base.{suc, refl, Bool, true, false, if◌then◌else◌}
use rabia.Core.Types.{NodeId, BatchId, PhaseId, CommandBatch}
use rabia.Core.Message.{
  ProtocolMessage, MessageType, propose, vote_round1, vote_round2, decision, sync_request,
  sync_response, new_batch, heart_beat, quorum_notification,
}
use rabia.Engine.State.{advance_phase, add_pending_batch}
use rabia.Engine.Runtime.{StateMachine, Env, RabiaEngine, M, ◌>>=◌, ◌>>◌}
use rabia.Engine.Voting.{
  propose_in, propose_batch, accept_batch, refuse_batch, process_batch_request,
}
use rabia.Engine.Sync.{advance_to_next_phase}
use rabia.Engine.Loop.{
  EngineCommand, process_batch, shutdown, force_phase_advance, trigger_sync, statistics_wanted,
  check_message, dispatch, handle_message, handle_command, Event, received, command, channel_closed,
  cleanup_tick, heartbeat_tick, idle, turn,
}
use rabia.Engine.Change.{
  Steps, bind-Steps, then-Steps, pure-Steps, lift-Steps, gets-Steps, my_id-Steps, reply-Steps,
  stamp-Steps,
}
use rabia.Engine.Growth.{
  Grows, Fits, Grows-refl, Grows-trans, advance_phase-Grows, add_pending_batch-Grows,
  update_phase-Grows,
}
use rabia.Engine.Growth.Rules.{growth, modify-Steps, transmit-Steps}
use rabia.Engine.Growth.Decisions.{handle_decision-Steps}
use rabia.Engine.Growth.Votes.{
  handle_propose-Steps, handle_vote_round1-Steps, handle_vote_round2-Steps,
}
use rabia.Engine.Growth.Syncs.{
  handle_sync_request-Steps, handle_sync_response-Steps, handle_new_batch-Steps,
  initiate_sync-Steps, send_heartbeat-Steps, cleanup_old_state-Steps,
}

module _ {S : Type 0} (sm : StateMachine S) (env : Env) where
  check_message-Steps : (m : ProtocolMessage) → Steps (check_message sm env m)
  unfolding check_message
  check_message-Steps m = record { apply = λ e. Grows-refl e.engine_state }

  dispatch-Steps : (n : NodeId) (m : MessageType) → Steps (dispatch sm env n m)
  unfolding dispatch
  dispatch-Steps n (propose m) = handle_propose-Steps env n m
  dispatch-Steps n (vote_round1 m) = handle_vote_round1-Steps env n m
  dispatch-Steps n (vote_round2 m) = handle_vote_round2-Steps sm env n m
  dispatch-Steps n (decision m) = handle_decision-Steps sm env n m
  dispatch-Steps n (sync_request m) = handle_sync_request-Steps sm env n m
  dispatch-Steps n (sync_response m) = handle_sync_response-Steps sm n m
  dispatch-Steps n (new_batch m) = handle_new_batch-Steps env n m
  dispatch-Steps n (heart_beat m) = pure-Steps tt
  dispatch-Steps n (quorum_notification m) = pure-Steps tt

  handle_message-Steps : (n : NodeId) (m : ProtocolMessage) → Steps (handle_message sm env n m)
  unfolding handle_message
  handle_message-Steps n m =
      then-Steps _ _ (check_message-Steps m)
        (then-Steps _ _ (lift-Steps _) (dispatch-Steps n m.message_type))

module _ {S : Type 0} (env : Env) where
  -- What advances the counter of phases needs room for it.
  advance_to_next_phase-Grows :
      (e : RabiaEngine S)
      → Fits e.engine_state
      → Grows e.engine_state (advance_to_next_phase env e).1.engine_state
  unfolding advance_to_next_phase ◌>>◌
  advance_to_next_phase-Grows e f = advance_phase-Grows e.engine_state f

  propose_in-Steps :
      (p : PhaseId) (b : BatchId) (c : CommandBatch) → Steps (propose_in {S = S} env p b c)
  unfolding propose_in
  propose_in-Steps p b c =
      then-Steps _ _ (modify-Steps _ (λ s. update_phase-Grows p _ s (λ d. refl))) (
        bind-Steps _ _ (stamp-Steps env _)
          λ m. bind-Steps _ _ my_id-Steps λ me. transmit-Steps env _)

  propose_batch-Grows :
      (b : BatchId) (c : CommandBatch) (e : RabiaEngine S)
      → Fits e.engine_state
      → Grows e.engine_state (propose_batch env b c e).1.engine_state
  unfolding propose_batch ◌>>=◌
  propose_batch-Grows b c e f =
      let advanced = record e { engine_state = (advance_phase e.engine_state).1 } in
      Grows-trans (advance_phase-Grows e.engine_state f)
        ((propose_in-Steps (advance_phase e.engine_state).0 b c).apply advanced)

  accept_batch-Grows :
      (c : CommandBatch) (e : RabiaEngine S)
      → Fits e.engine_state
      → Grows e.engine_state (accept_batch env c e).1.engine_state
  unfolding ◌>>=◌ add_pending_batch
  accept_batch-Grows c e f =
      let now = env.now_millis e.asked in
      let s = (add_pending_batch now c e.node_id e.engine_state).1 in
      Grows-trans (add_pending_batch-Grows now c e.node_id e.engine_state)
        (propose_batch-Grows c.id c (record e { asked = suc e.asked; engine_state = s }) f)

  refuse_batch-Steps : Steps (refuse_batch {S = S} env)
  refuse_batch-Steps = bind-Steps _ _ (gets-Steps _) λ x. reply-Steps _

  on_quorum-Grows :
      (m k : M S (Unit {0})) (e : RabiaEngine S)
      → Grows e.engine_state (m e).1.engine_state
      → Grows e.engine_state (k e).1.engine_state
      → (quorum : Bool) → Grows e.engine_state ((if quorum then m else k) e).1.engine_state
  on_quorum-Grows m k e g h true = g
  on_quorum-Grows m k e g h false = h

  process_batch_request-Grows :
      (c : CommandBatch) (e : RabiaEngine S)
      → Fits e.engine_state
      → Grows e.engine_state (process_batch_request env c e).1.engine_state
  unfolding process_batch_request ◌>>=◌
  process_batch_request-Grows c e f =
      on_quorum-Grows (accept_batch env c) (refuse_batch env) e (accept_batch-Grows c e f)
        (refuse_batch-Steps.apply e) e.engine_state.has_quorum

module _ {S : Type 0} (sm : StateMachine S) (env : Env) where
  handle_command-Grows :
      (c : EngineCommand) (e : RabiaEngine S)
      → Fits e.engine_state
      → Grows e.engine_state (handle_command sm env c e).1.engine_state
  unfolding handle_command
  handle_command-Grows (process_batch b) e f = process_batch_request-Grows env b e f
  handle_command-Grows shutdown e f = (lift-Steps _).apply e
  handle_command-Grows force_phase_advance e f = advance_to_next_phase-Grows env e f
  handle_command-Grows trigger_sync e f = (initiate_sync-Steps env).apply e
  handle_command-Grows statistics_wanted e f =
      (bind-Steps _ _ (gets-Steps _) λ stats. reply-Steps _).apply e

  turn_cases :
      (x : Event) (e : RabiaEngine S)
      → Fits e.engine_state
      → Grows e.engine_state (turn sm env x e).engine_state
  unfolding turn
  turn_cases (received n m) e f = (handle_message-Steps sm env n m).apply e
  turn_cases (command c) e f = handle_command-Grows c e f
  turn_cases channel_closed e f = Grows-refl e.engine_state
  turn_cases cleanup_tick e f = (cleanup_old_state-Steps env).apply e
  turn_cases heartbeat_tick e f = (send_heartbeat-Steps env).apply e
  turn_cases idle e f = Grows-refl e.engine_state

  -- Whatever the engine handles in a turn of its loop, well or badly formed, and whether the
  -- network, the disk and the state machine succeed or fail: the invariant of its state is kept,
  -- neither the committed nor the current phase falls, and a table with no phase on file stays so.
  -- The counter of phases must have room for one advance.
  pub turn-Grows :
      (x : Event) (e : RabiaEngine S)
      → Fits e.engine_state
      → Grows e.engine_state (turn sm env x e).engine_state
  turn-Grows x e f = turn_cases x e f
