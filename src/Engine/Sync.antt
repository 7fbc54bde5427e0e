-- ===== src/Engine/Sync.antt =====
-- rabia-engine/src/engine.rs: catching up with the other nodes, clean-up and heartbeats.
use rabia.Base.{ℕ, ◌/◌, List, [], ◌∷◌, Option, none, some, leb, ltb, ◌==◌, if◌then◌else◌, length}
use rabia.Base.Assoc.{Assoc, values}
use rabia.Core.Types.{NodeId, PhaseId}
use rabia.Core.Error.{ok}
use rabia.Core.Message.{
  Snapshot, SyncRequestMessage, SyncResponseMessage, HeartBeatMessage, NewBatchMessage, heart_beat,
  new, sync_request_message, sync_response_message,
}
use rabia.Engine.State.{
  EngineState, advance_phase, add_pending_batch, cleanup_old_phases, cleanup_old_pending_batches,
  add_sync_response, clear_sync_responses,
}
use rabia.Engine.Runtime.{
  StateMachine, Env, send_to, broadcast, M, pure, gets, on_state, ◌>>=◌, ◌>>◌, modify, my_id,
  now_millis, transmit, stamp,
}

-- `max_by_key`: of equal phases the last one in the order of iteration.
abbrev pub later_response : SyncResponseMessage → SyncResponseMessage → SyncResponseMessage
later_response best r = if leb best.responder_phase r.responder_phase then r else best

unfoldable pub latest : SyncResponseMessage → List SyncResponseMessage → SyncResponseMessage
latest best [] = best
latest best (r ∷ rs) = latest (later_response best r) rs

abbrev pub adopt_phase : PhaseId → EngineState → EngineState
adopt_phase p s = record s { current_phase = p }

module _ {S : Type 0} (sm : StateMachine S) where
  unfoldable pub take_snapshot : M S Snapshot
  take_snapshot e = (sm.create_snapshot e.state_machine, e)

  unfoldable pub restore : Option Snapshot → M S (Unit {0})
  restore none e = (ok tt, e)
  restore (some snapshot) e =
      let (r, s) = sm.restore_snapshot e.state_machine snapshot in
      (r, record e { state_machine = s })

  -- A snapshot is made only for a node that is behind.
  abbrev pub snapshot_for : PhaseId → PhaseId → M S (Option Snapshot)
  snapshot_for current requester =
      if ltb requester current
      then (do snapshot ← take_snapshot; pure (some snapshot))
      else pure none

  abbrev pub install : SyncResponseMessage → M S (Unit {0})
  install r = do modify (adopt_phase r.responder_phase); restore r.state_snapshot

  unfoldable pub adopt : SyncResponseMessage → M S (Unit {0})
  adopt r = do
    current ← gets (λ s. s.current_phase)
    if ltb current r.responder_phase then install r else pure tt

  abbrev pub adopt_latest : List SyncResponseMessage → M S (Unit {0})
  adopt_latest [] = pure tt
  adopt_latest (r ∷ rs) = adopt (latest r rs)

  unfoldable pub resolve_sync : Assoc SyncResponseMessage → M S (Unit {0})
  resolve_sync responses = do adopt_latest (values responses); modify clear_sync_responses

  unfoldable pub handle_sync_response : NodeId → SyncResponseMessage → M S (Unit {0})
  handle_sync_response from r = do
    modify (add_sync_response from r)
    responses ← gets (λ s. s.sync_responses)
    quorum_size ← gets (λ s. s.quorum_size)
    if leb quorum_size (length responses) then resolve_sync responses else pure tt

module _ {S : Type 0} (sm : StateMachine S) (env : Env) where
  unfoldable pub handle_sync_request : NodeId → SyncRequestMessage → M S (Unit {0})
  handle_sync_request from request = do
    current ← gets (λ s. s.current_phase)
    version ← gets (λ s. s.state_version)
    snapshot ← snapshot_for sm current request.requester_phase
    message ← stamp env (λ id now me. sync_response_message id now me from (record {
      responder_phase = current;
      responder_state_version = version;
      state_snapshot = snapshot;
      pending_batches = [];
      committed_phases = [];
    }))
    transmit env (send_to from message)

module _ {S : Type 0} (env : Env) where
  -- The loop over the active nodes; the first failure ends it.
  unfoldable pub request_from : SyncRequestMessage → NodeId → List NodeId → M S (Unit {0})
  request_from request me [] = pure tt
  request_from request me (n ∷ ns) =
      let rest = request_from request me ns in
      if n == me then rest else (do
        message ← stamp env (λ id now from. sync_request_message id now from n request)
        transmit env (send_to n message)
        rest)

  unfoldable pub initiate_sync : M S (Unit {0})
  initiate_sync = do
    request ← gets (λ s. record {
      requester_phase = s.current_phase;
      requester_state_version = s.state_version;
    })
    me ← my_id
    active_nodes ← gets (λ s. s.active_nodes)
    request_from request me active_nodes

  unfoldable pub handle_new_batch : NodeId → NewBatchMessage → M S (Unit {0})
  handle_new_batch from m = do
    now ← now_millis env
    on_state (add_pending_batch now m.batch m.originator)
    pure tt

  abbrev pub handle_heartbeat : NodeId → HeartBeatMessage → M S (Unit {0})
  handle_heartbeat from h = pure tt

  unfoldable pub send_heartbeat : M S (Unit {0})
  send_heartbeat = do
    beat ← gets (λ s. record {
      current_phase = s.current_phase;
      last_committed_phase = s.last_committed_phase;
      active = s.is_active;
    })
    message ← stamp env (λ id now me. new id now me none (heart_beat beat))
    me ← my_id
    transmit env (broadcast message (some me))

  unfoldable pub advance_to_next_phase : M S (Unit {0})
  advance_to_next_phase = do on_state advance_phase; pure tt

  unfoldable pub my_history : M S ℕ
  my_history e = (ok e.config.max_phase_history, e)

  unfoldable pub cleanup_old_state : M S (Unit {0})
  cleanup_old_state = do
    history ← my_history
    now ← now_millis env
    on_state (cleanup_old_phases (now / 1000) history)
    later ← now_millis env
    on_state (cleanup_old_pending_batches later 300)
    pure tt
