-- ===== src/Engine/Loop.antt =====
-- rabia-engine/src/engine.rs: the dispatch of messages and commands, the start of an engine, its
-- main loop, and the callbacks from the network. A turn of the loop is an event: what the
-- `select!` or the network brings. An error of a turn is logged, and the loop goes on.
use rabia.Base.{
  ℕ, suc, ◌+◌, Bool, true, false, not, List, [], ◌∷◌, Option, none, some, ◌==◌, if◌then◌else◌,
  length,
}
use rabia.Base.NodeSet.{NodeSet}
use rabia.Core.Types.{NodeId, CommandBatch}
use rabia.Core.Error.{Result, ok, err, network, internal, text, raise_if}
use rabia.Core.Message.{
  ProtocolMessage, MessageType, propose, vote_round1, vote_round2, decision, sync_request,
  sync_response, new_batch, heart_beat, quorum_notification,
}
use rabia.Core.Validation.{validate}
use rabia.Engine.State.{EngineState, update_active_nodes, set_active, get_statistics}
use rabia.Engine.Leader.{update_cluster_view}
use rabia.Engine.Runtime.{
  StateMachine, Env, PersistedState, statistics, RabiaEngine, M, pure, lift, gets, ◌>>=◌, ◌>>◌,
  modify, reply, get_connected_nodes, load_bytes,
}
use rabia.Engine.Decide.{handle_decision}
use rabia.Engine.Voting.{
  process_batch_request, handle_propose, handle_vote_round1, handle_vote_round2,
}
use rabia.Engine.Sync.{
  restore, handle_sync_request, handle_sync_response, initiate_sync, handle_new_batch,
  handle_heartbeat, send_heartbeat, advance_to_next_phase, cleanup_old_state,
}

pub data EngineCommand : Type 0 where
  process_batch : CommandBatch → EngineCommand
  shutdown : EngineCommand
  force_phase_advance : EngineCommand
  trigger_sync : EngineCommand
  statistics_wanted : EngineCommand

-- How many batches a message carries, each of which is checked against the clock.
abbrev pub batches_in : MessageType → ℕ
batches_in (sync_response m) = length m.pending_batches
batches_in _ = 1

abbrev pub adopt_persisted : PersistedState → EngineState → EngineState
adopt_persisted p s = record s {
  current_phase = p.current_phase;
  last_committed_phase = p.last_committed_phase;
}

module _ {S : Type 0} (sm : StateMachine S) (env : Env) where
  -- `message.validate()`, with the readings of the clock that it takes.
  unfoldable pub check_message : ProtocolMessage → M S (Unit {0})
  check_message m e = (
    validate (env.now_millis e.asked) (λ i. env.now_millis (suc e.asked + i)) m,
    record e { asked = suc e.asked + batches_in m.message_type },
  )

  -- The match on the kind of message.
  unfoldable pub dispatch : NodeId → MessageType → M S (Unit {0})
  dispatch from (propose m) = handle_propose env from m
  dispatch from (vote_round1 m) = handle_vote_round1 env from m
  dispatch from (vote_round2 m) = handle_vote_round2 sm env from m
  dispatch from (decision m) = handle_decision sm env from m
  dispatch from (sync_request m) = handle_sync_request sm env from m
  dispatch from (sync_response m) = handle_sync_response sm from m
  dispatch from (new_batch m) = handle_new_batch env from m
  dispatch from (heart_beat m) = handle_heartbeat env from m
  dispatch from (quorum_notification m) = pure tt

  unfoldable pub handle_message : NodeId → ProtocolMessage → M S (Unit {0})
  handle_message from m = do
    check_message m
    lift (raise_if (not (m.from == from)) (network (text "Message source mismatch")))
    dispatch from m.message_type

  unfoldable pub handle_command : EngineCommand → M S (Unit {0})
  handle_command (process_batch b) = process_batch_request env b
  handle_command shutdown = lift (err (internal (text "Shutdown requested")))
  handle_command force_phase_advance = advance_to_next_phase env
  handle_command trigger_sync = initiate_sync env
  handle_command statistics_wanted = do stats ← gets get_statistics; reply (statistics stats)

  abbrev pub resume_from : Result PersistedState → M S (Unit {0})
  resume_from (err x) e = (err x, e)
  resume_from (ok p) e =
      restore sm p.snapshot (record e { engine_state = adopt_persisted p e.engine_state })

  -- What was saved is taken over, if there is anything.
  unfoldable pub resume : Option (List ℕ) → M S (Unit {0})
  resume none = pure tt
  resume (some bytes) = resume_from (env.from_bytes bytes)

  unfoldable pub initialize : M S (Unit {0})
  initialize = do
    persisted ← load_bytes env
    resume persisted
    connected ← get_connected_nodes env
    modify (update_active_nodes connected)

-- What one turn of the loop handles.
pub data Event : Type 0 where
  received : NodeId → ProtocolMessage → Event
  command : EngineCommand → Event
  channel_closed : Event
  cleanup_tick : Event
  heartbeat_tick : Event
  idle : Event

-- The receiver answers `None` once every sender is gone.
abbrev pub ends_loop : Event → Bool
ends_loop channel_closed = true
ends_loop _ = false

module _ {S : Type 0} (sm : StateMachine S) (env : Env) where
  -- The state after a turn, whether it failed or not.
  unfoldable pub turn : Event → RabiaEngine S → RabiaEngine S
  turn (received from m) e = (handle_message sm env from m e).1
  turn (command c) e = (handle_command sm env c e).1
  turn channel_closed e = e
  turn cleanup_tick e = (cleanup_old_state env e).1
  turn heartbeat_tick e = (send_heartbeat env e).1
  turn idle e = e

  -- The loop over the events that come; true when it has ended, false when it waits for more.
  unfoldable pub run_loop : List Event → RabiaEngine S → Bool × RabiaEngine S
  run_loop [] e = (false, e)
  run_loop (x ∷ xs) e = let rest = run_loop xs (turn x e) in if ends_loop x then (true, e) else rest

  -- The start may fail, and then there is no loop.
  abbrev pub after_start :
      List Event → Result (Unit {0}) × RabiaEngine S → Result Bool × RabiaEngine S
  after_start events (err x, e) = (err x, e)
  after_start events (ok u, e) = let (ended, e') = run_loop events e in (ok ended, e')

  unfoldable pub run : List Event → RabiaEngine S → Result Bool × RabiaEngine S
  run events e = after_start events (initialize sm env e)

module _ {S : Type 0} where
  -- `update_cluster_membership`
  unfoldable pub update_cluster_membership : NodeSet → RabiaEngine S → Option NodeId × RabiaEngine S
  update_cluster_membership nodes e =
      let (new_leader, selector) = update_cluster_view nodes e.leader_selector in
      (
        new_leader,
        record e {
          leader_selector = selector;
          engine_state = update_active_nodes nodes e.engine_state;
        },
      )

  abbrev pub on_engine_state : (EngineState → EngineState) → RabiaEngine S → RabiaEngine S
  on_engine_state f e = record e { engine_state = f e.engine_state }

  unfoldable pub on_network_partition : NodeSet → RabiaEngine S → RabiaEngine S
  on_network_partition nodes = on_engine_state (update_active_nodes nodes)

  unfoldable pub on_quorum_lost : RabiaEngine S → RabiaEngine S
  on_quorum_lost = on_engine_state (set_active false)

  unfoldable pub on_quorum_restored : NodeSet → RabiaEngine S → RabiaEngine S
  on_quorum_restored nodes e =
      on_engine_state (set_active true) (on_engine_state (update_active_nodes nodes) e)
