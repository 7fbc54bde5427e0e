-- ===== src/Engine/Silence/Turns.antt =====
-- The main loop of rabia-engine/src/engine.rs in a silent engine.
use rabia.Base.{refl, List, [], ◌∷◌, Option, none, some, Bool, true, false, arith, if◌then◌else◌}
use rabia.Base.NodeSet.{NodeSet}
use rabia.Core.Types.{NodeId, Bytes}
use rabia.Core.Error.{Result, ok, err}
use rabia.Core.Message.{
  ProtocolMessage, MessageType, propose, vote_round1, vote_round2, decision, sync_request,
  sync_response, new_batch, heart_beat, quorum_notification,
}
use rabia.Core.Network.{ClusterConfig}
use rabia.Engine.State.{EngineState, update_active_nodes, set_quorum, set_active}
use rabia.Engine.Runtime.{
  StateMachine, Env, PersistedState, RabiaConfig, RabiaEngine, new_engine, get_connected_nodes,
  load_bytes,
}
use rabia.Engine.Loop.{
  EngineCommand, process_batch, shutdown, force_phase_advance, trigger_sync, statistics_wanted,
  check_message, dispatch, handle_message, handle_command, Event, received, command, channel_closed,
  cleanup_tick, heartbeat_tick, idle, turn, ends_loop, run_loop, adopt_persisted, resume_from,
  resume, initialize, after_start, run,
}
use rabia.Engine.Change.{
  Steps, bind-Steps, then-Steps, pure-Steps, lift-Steps, gets-Steps, reply-Steps,
}
use rabia.Engine.Silence.{IsSilent}
use rabia.Engine.Silence.Rules.{silence, AddsNoPhase, modify-Steps}
use rabia.Engine.Silence.Decisions.{
  vote_round1-Steps, vote_round2-Steps, decided-Steps, restored-Steps, sync_response-Steps,
  sync_request-Steps,
}
use rabia.Engine.Silence.Votes.{
  propose-Steps, request-Steps, sync-Steps, new_batch-Steps, heartbeat-Steps, advanced-Steps,
  cleaned-Steps,
}

update_active_nodes-AddsNoPhase :
    (nodes : NodeSet) (s : EngineState) → AddsNoPhase s (update_active_nodes nodes s)
unfolding update_active_nodes set_quorum set_active
update_active_nodes-AddsNoPhase nodes s h = ground arith

module _ {S : Type 0} (sm : StateMachine S) (env : Env) where
  dispatch-Steps : (n : NodeId) (m : MessageType) → Steps (dispatch sm env n m)
  unfolding dispatch
  dispatch-Steps n (propose m) = propose-Steps env n m
  dispatch-Steps n (vote_round1 m) = vote_round1-Steps sm env n m
  dispatch-Steps n (vote_round2 m) = vote_round2-Steps sm env n m
  dispatch-Steps n (decision m) = decided-Steps sm env n m
  dispatch-Steps n (sync_request m) = sync_request-Steps sm env n m
  dispatch-Steps n (sync_response m) = sync_response-Steps sm env n m
  dispatch-Steps n (new_batch m) = new_batch-Steps env n m
  dispatch-Steps n (heart_beat m) = pure-Steps tt
  dispatch-Steps n (quorum_notification m) = pure-Steps tt

  message-Steps : (n : NodeId) (m : ProtocolMessage) → Steps (handle_message sm env n m)
  unfolding handle_message check_message
  message-Steps n m =
      then-Steps (check_message sm env m) _
        (record { apply = λ e h. record { no_phase = h.no_phase; early = h.early } })
        (then-Steps _ _ (lift-Steps _) (dispatch-Steps n m.message_type))

  command-Steps : (c : EngineCommand) → Steps (handle_command sm env c)
  unfolding handle_command
  command-Steps (process_batch b) = request-Steps env b
  command-Steps shutdown = lift-Steps _
  command-Steps force_phase_advance = advanced-Steps env
  command-Steps trigger_sync = sync-Steps env
  command-Steps statistics_wanted = bind-Steps _ _ (gets-Steps _) λ stats. reply-Steps _

  resume_from-Steps : (r : Result PersistedState) → Steps (resume_from sm env r)
  resume_from-Steps (err x) = record { apply = λ e h. h }
  resume_from-Steps (ok p) = record {
    apply = λ e h.
        let adopted = record e { engine_state = adopt_persisted p e.engine_state } in
        (restored-Steps sm env p.snapshot).apply adopted
          (record { no_phase = h.no_phase; early = h.early });
  }

  resume-Steps : (o : Option Bytes) → Steps (resume sm env o)
  unfolding resume
  resume-Steps none = pure-Steps tt
  resume-Steps (some b) = resume_from-Steps (env.from_bytes b)

  initialize-Steps : Steps (initialize sm env)
  unfolding initialize load_bytes get_connected_nodes
  initialize-Steps =
      bind-Steps (load_bytes env) _
        (record { apply = λ e h. record { no_phase = h.no_phase; early = h.early } })
        λ b. then-Steps _ _ (resume-Steps b) (
          bind-Steps (get_connected_nodes env) _
            (record { apply = λ e h. record { no_phase = h.no_phase; early = h.early } })
            λ nodes. modify-Steps _ (update_active_nodes-AddsNoPhase nodes))

  turn-IsSilent : (x : Event) (e : RabiaEngine S) → IsSilent e → IsSilent (turn sm env x e)
  unfolding turn
  turn-IsSilent (received n m) e h = (message-Steps n m).apply e h
  turn-IsSilent (command c) e h = (command-Steps c).apply e h
  turn-IsSilent channel_closed e h = h
  turn-IsSilent cleanup_tick e h = (cleaned-Steps env).apply e h
  turn-IsSilent heartbeat_tick e h = (heartbeat-Steps env).apply e h
  turn-IsSilent idle e h = h

  if_ended :
      (b : Bool) (e : RabiaEngine S) (rest : Bool × RabiaEngine S)
      → IsSilent e
      → IsSilent rest.1
      → IsSilent (if b then (true, e) else rest).1
  if_ended true e rest h k = h
  if_ended false e rest h k = k

  run_loop-IsSilent :
      (xs : List Event) (e : RabiaEngine S) → IsSilent e → IsSilent (run_loop sm env xs e).1
  unfolding run_loop
  run_loop-IsSilent [] e h = h
  run_loop-IsSilent (x ∷ xs) e h =
      if_ended (ends_loop x) e _ h (run_loop-IsSilent xs _ (turn-IsSilent x e h))

  started :
      (xs : List Event) (r : Result (Unit {0}) × RabiaEngine S)
      → IsSilent r.1
      → IsSilent (after_start sm env xs r).1
  started xs (ok u, e) h = run_loop-IsSilent xs e h
  started xs (err x, e) h = h

-- A new engine that is run, whatever messages, commands and ticks come to it in whatever order,
-- whatever was saved before, and however the network, the disk, the random generator and the state
-- machine answer, never has a phase on file, and never sends a vote of the second round or a
-- decision.
pub run-IsSilent :
    {S : Type 0} (sm : StateMachine S) (env : Env) (id : NodeId) (config : RabiaConfig)
    (cluster : ClusterConfig) (s : S) (events : List Event)
    → IsSilent (run sm env events (new_engine id config cluster s)).1
unfolding run
run-IsSilent sm env id config cluster s events =
    let e = new_engine id config cluster s in
    started sm env events (initialize sm env e)
      ((initialize-Steps sm env).apply e (record { no_phase = refl; early = tt }))
