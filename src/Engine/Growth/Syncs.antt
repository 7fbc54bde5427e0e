-- ===== src/Engine/Growth/Syncs.antt =====
-- Catching up, clean-up and heartbeats of rabia-engine/src/engine.rs as changes of the kind `Grows`.
use rabia.Base.{
  ◌/◌, ◌≡◌, refl, List, [], ◌∷◌, Option, none, some, if◌then◌else◌, ltb, leb, ◌==◌, length, arith,
  Bool-cases, inl, inr,
}
use rabia.Base.Assoc.{Assoc, values}
use rabia.Core.Types.{NodeId, PhaseId}
use rabia.Core.Message.{SyncRequestMessage, SyncResponseMessage, NewBatchMessage, Snapshot}
use rabia.Engine.State.{EngineState}
use rabia.Engine.Runtime.{StateMachine, Env, RabiaEngine, ◌>>◌}
use rabia.Engine.Sync.{
  take_snapshot, restore, latest, adopt, adopt_phase, adopt_latest, resolve_sync,
  handle_sync_response, snapshot_for, handle_sync_request, request_from, initiate_sync,
  handle_new_batch, send_heartbeat, cleanup_old_state, my_history,
}
use rabia.Engine.Change.{
  Steps, bind-Steps, then-Steps, if-Steps, pure-Steps, gets-Steps, my_id-Steps, now_millis-Steps,
  stamp-Steps,
}
use rabia.Engine.Growth.{
  Grows, Grows-refl, cleanup_old_phases-Grows, cleanup_old_pending_batches-Grows,
  add_sync_response-Grows, clear_sync_responses-Grows,
}
use rabia.Engine.Growth.Rules.{
  growth, modify-Steps, on_state-Steps, transmit-Steps, add_pending-Steps,
}

module _ {S : Type 0} (sm : StateMachine S) where
  pub restore-Steps : (s : Option Snapshot) → Steps (restore sm s)
  unfolding restore
  restore-Steps none = record { apply = λ e. Grows-refl e.engine_state }
  restore-Steps (some s) = record { apply = λ e. Grows-refl e.engine_state }

  pub take_snapshot-Steps : Steps (take_snapshot sm)
  unfolding take_snapshot
  take_snapshot-Steps = record { apply = λ e. Grows-refl e.engine_state }

  -- A phase is adopted only if it is a later one.
  pub adopt_state :
      (r : SyncResponseMessage) (e : RabiaEngine S)
      → (adopt sm r e).1.engine_state ≡ (
          if ltb e.engine_state.current_phase r.responder_phase
          then adopt_phase r.responder_phase e.engine_state
          else e.engine_state)
  unfolding adopt restore ◌>>◌
  adopt_state r e = ground arith

  pub adopt_phase-Grows :
      (p : PhaseId) (s : EngineState)
      → Grows s (if ltb s.current_phase p then adopt_phase p s else s)
  adopt_phase-Grows p s = elim (Bool-cases (ltb s.current_phase p)) [
    | inl later ↦ rw later (record {
      valid = λ v. ground arith;
      committed = omega arith;
      current = ground arith;
      no_phase = λ e. e;
      quorum_size = refl;
    })
    | inr same ↦ rw same (Grows-refl s)
  ]

  pub adopt-Steps : (r : SyncResponseMessage) → Steps (adopt sm r)
  adopt-Steps r = record {
    apply = λ e. rw (adopt_state r e) (adopt_phase-Grows r.responder_phase e.engine_state);
  }

  pub adopt_latest-Steps : (rs : List SyncResponseMessage) → Steps (adopt_latest sm rs)
  adopt_latest-Steps [] = pure-Steps tt
  adopt_latest-Steps (r ∷ rs) = adopt-Steps (latest r rs)

  pub resolve_sync-Steps : (rs : Assoc SyncResponseMessage) → Steps (resolve_sync sm rs)
  unfolding resolve_sync
  resolve_sync-Steps rs =
      then-Steps _ _ (adopt_latest-Steps (values rs)) (modify-Steps _ clear_sync_responses-Grows)

  pub handle_sync_response-Steps :
      (n : NodeId) (r : SyncResponseMessage) → Steps (handle_sync_response sm n r)
  unfolding handle_sync_response
  handle_sync_response-Steps n r = then-Steps _ _ (modify-Steps _ (add_sync_response-Grows n r)) (
      bind-Steps _ _ (gets-Steps _) λ rs.
        bind-Steps _ _ (gets-Steps _)
          λ q. if-Steps (leb q (length rs)) _ _ (resolve_sync-Steps rs) (pure-Steps tt))

module _ {S : Type 0} (sm : StateMachine S) (env : Env) where
  pub snapshot_for-Steps : (p q : PhaseId) → Steps (snapshot_for sm p q)
  snapshot_for-Steps p q =
      if-Steps (ltb q p) _ _ (bind-Steps _ _ (take_snapshot-Steps sm) λ s. pure-Steps (some s))
        (pure-Steps none)

  pub handle_sync_request-Steps :
      (n : NodeId) (r : SyncRequestMessage) → Steps (handle_sync_request sm env n r)
  unfolding handle_sync_request
  handle_sync_request-Steps n r = bind-Steps _ _ (gets-Steps _) λ current.
      bind-Steps _ _ (gets-Steps _) λ version.
        bind-Steps _ _ (snapshot_for-Steps current r.requester_phase)
          λ snapshot. bind-Steps _ _ (stamp-Steps env _) λ m. transmit-Steps env _

module _ {S : Type 0} (env : Env) where
  pub handle_new_batch-Steps :
      (n : NodeId) (m : NewBatchMessage) → Steps (handle_new_batch {S = S} env n m)
  unfolding handle_new_batch
  handle_new_batch-Steps n m =
      bind-Steps _ _ (now_millis-Steps env)
        λ now. then-Steps _ _ (add_pending-Steps now m.batch m.originator) (pure-Steps tt)

module _ {S : Type 0} (env : Env) where
  pub request_from-Steps :
      (r : SyncRequestMessage) (me : NodeId) (ns : List NodeId)
      → Steps (request_from {S = S} env r me ns)
  unfolding request_from
  request_from-Steps r me [] = pure-Steps tt
  request_from-Steps r me (n ∷ ns) = if-Steps (n == me) _ _ (request_from-Steps r me ns) (
      bind-Steps _ _ (stamp-Steps env _)
        λ m. then-Steps _ _ (transmit-Steps env _) (request_from-Steps r me ns))

  pub initiate_sync-Steps : Steps (initiate_sync {S = S} env)
  unfolding initiate_sync
  initiate_sync-Steps = bind-Steps _ _ (gets-Steps _) λ r.
      bind-Steps _ _ my_id-Steps
        λ me. bind-Steps _ _ (gets-Steps _) λ ns. request_from-Steps r me ns

  pub send_heartbeat-Steps : Steps (send_heartbeat {S = S} env)
  unfolding send_heartbeat
  send_heartbeat-Steps = bind-Steps _ _ (gets-Steps _) λ beat.
      bind-Steps _ _ (stamp-Steps env _) λ m. bind-Steps _ _ my_id-Steps λ me. transmit-Steps env _

  pub my_history-Steps : Steps (my_history {S = S} env)
  unfolding my_history
  my_history-Steps = record { apply = λ e. Grows-refl e.engine_state }

  pub cleanup_old_state-Steps : Steps (cleanup_old_state {S = S} env)
  unfolding cleanup_old_state
  cleanup_old_state-Steps = bind-Steps _ _ my_history-Steps λ history.
      bind-Steps _ _ (now_millis-Steps env) λ now.
        then-Steps _ _ (on_state-Steps _ (cleanup_old_phases-Grows (now / 1000) history)) (
          bind-Steps _ _ (now_millis-Steps env) λ later.
            then-Steps _ _ (on_state-Steps _ (cleanup_old_pending_batches-Grows later 300))
              (pure-Steps tt))
