-- ===== src/Engine/Silence/Decisions.antt =====
-- Votes, decisions and catching up of rabia-engine/src/engine.rs in a silent engine.
use rabia.Base.{◌≡◌, refl, List, [], ◌∷◌, Option, none, some, ltb, leb, length, arith}
use rabia.Base.Assoc.{values}
use rabia.Core.Types.{NodeId, PhaseId, StateValue, v1, CommandBatch}
use rabia.Core.Message.{
  DecisionMessage, SyncRequestMessage, SyncResponseMessage, Snapshot, VoteRound1Message,
  VoteRound2Message,
}
use rabia.Engine.State.{EngineState, get_phase}
use rabia.Engine.Runtime.{StateMachine, Env}
use rabia.Engine.Decide.{
  run_commands, apply_batch, make_persisted, save_state, commit, commit_batch, commit_received,
  handle_decision,
}
use rabia.Engine.Voting.{handle_vote_round1, handle_vote_round2}
use rabia.Engine.Sync.{
  take_snapshot, restore, snapshot_for, latest, adopt, adopt_latest, resolve_sync,
  handle_sync_response, handle_sync_request,
}
use rabia.Engine.Change.{
  Steps, bind-Steps, then-Steps, if-Steps, pure-Steps, lift-Steps, gets-Steps, store_bytes-Steps,
  ignore_error-Steps,
}
use rabia.Engine.Growth.{
  commit_phase-Grows, remove_pending_batch-Grows, add_sync_response-Grows,
  clear_sync_responses-Grows,
}
use rabia.Engine.Silence.{vote_round1_ignored, vote_round2_ignored}
use rabia.Engine.Silence.Rules.{silence, modify-Steps, on_state-Steps, send-Steps, update-Steps}

get_phase-none : (p : PhaseId) (s : EngineState) → s.phases ≡ [] → get_phase p s ≡ none
get_phase-none p s h = ground arith

module _ {S : Type 0} (sm : StateMachine S) (env : Env) where
  pub vote_round1-Steps :
      (n : NodeId) (m : VoteRound1Message) → Steps (handle_vote_round1 {S = S} env n m)
  vote_round1-Steps n m = record {
    apply = λ e h.
        rw (vote_round1_ignored env n m e (get_phase-none m.phase_id e.engine_state h.no_phase)) h;
  }

  pub vote_round2-Steps :
      (n : NodeId) (m : VoteRound2Message) → Steps (handle_vote_round2 sm env n m)
  vote_round2-Steps n m = record {
    apply = λ e h.
        rw (vote_round2_ignored sm env n m e (get_phase-none m.phase_id e.engine_state h.no_phase))
          h;
  }

  applied-Steps : (b : CommandBatch) → Steps (apply_batch sm b)
  unfolding apply_batch run_commands
  applied-Steps b =
      then-Steps (run_commands sm b) _
        (record { apply = λ e h. record { no_phase = h.no_phase; early = h.early } })
        (then-Steps _ _ (on_state-Steps _ (λ s. (remove_pending_batch-Grows b.id s).no_phase))
          (pure-Steps tt))

  saved-Steps : Steps (save_state sm env)
  unfolding save_state make_persisted
  saved-Steps =
      bind-Steps (make_persisted sm env) _ (record { apply = λ e h. h })
        λ p. bind-Steps _ _ (lift-Steps _) λ b. store_bytes-Steps env b

  committed-Steps : (p : PhaseId) → Steps (commit sm env p)
  unfolding commit
  committed-Steps p = record {
    apply = λ e h. record {
      no_phase = (commit_phase-Grows p e.engine_state).no_phase h.no_phase;
      early = h.early;
    };
  }

  commit_batch-Steps : (p : PhaseId) (b : CommandBatch) → Steps (commit_batch sm env p b)
  unfolding commit_batch
  commit_batch-Steps p b =
      then-Steps _ _ (applied-Steps b)
        (then-Steps _ _ (committed-Steps p) (ignore_error-Steps _ saved-Steps))

  received-Steps :
      (d : DecisionMessage) (v : StateValue) (b : Option CommandBatch)
      → Steps (commit_received sm env d v b)
  received-Steps d v1 (some b) =
      bind-Steps _ _ (gets-Steps _)
        λ last. if-Steps (ltb last d.phase_id) _ _ (commit_batch-Steps d.phase_id b) (pure-Steps tt)
  received-Steps d _ _ = pure-Steps tt

  pub decided-Steps : (n : NodeId) (d : DecisionMessage) → Steps (handle_decision sm env n d)
  unfolding handle_decision
  decided-Steps n d =
      then-Steps _ _ (update-Steps d.phase_id _) (received-Steps d d.decision d.batch)

  pub restored-Steps : (s : Option Snapshot) → Steps (restore sm s)
  unfolding restore
  restored-Steps none = record { apply = λ e h. h }
  restored-Steps (some s) = record {
    apply = λ e h. record { no_phase = h.no_phase; early = h.early };
  }

  adopted-Steps : (rs : List SyncResponseMessage) → Steps (adopt_latest sm rs)
  unfolding adopt
  adopted-Steps [] = pure-Steps tt
  adopted-Steps (r ∷ rs) =
      let best = latest r rs in
      bind-Steps _ _ (gets-Steps _) λ current.
        if-Steps (ltb current best.responder_phase) _ _
          (then-Steps _ _ (modify-Steps _ (λ s h. h)) (restored-Steps best.state_snapshot))
          (pure-Steps tt)

  pub sync_response-Steps :
      (n : NodeId) (r : SyncResponseMessage) → Steps (handle_sync_response sm n r)
  unfolding handle_sync_response resolve_sync
  sync_response-Steps n r =
      then-Steps _ _ (modify-Steps _ (λ s. (add_sync_response-Grows n r s).no_phase)) (
        bind-Steps _ _ (gets-Steps _) λ responses. bind-Steps _ _ (gets-Steps _) λ q.
          if-Steps (leb q (length responses)) _ _
            (then-Steps _ _ (adopted-Steps (values responses))
              (modify-Steps _ (λ s. (clear_sync_responses-Grows s).no_phase)))
            (pure-Steps tt))

  snapshot-Steps : (current requester : PhaseId) → Steps (snapshot_for sm current requester)
  unfolding take_snapshot
  snapshot-Steps current requester =
      if-Steps (ltb requester current) _ _
        (bind-Steps (take_snapshot sm) _ (record { apply = λ e h. h }) λ s. pure-Steps _)
        (pure-Steps _)

  pub sync_request-Steps :
      (n : NodeId) (r : SyncRequestMessage) → Steps (handle_sync_request sm env n r)
  unfolding handle_sync_request
  sync_request-Steps n r = bind-Steps _ _ (gets-Steps _) λ current.
      bind-Steps _ _ (gets-Steps _) λ version.
        bind-Steps _ _ (snapshot-Steps current r.requester_phase)
          λ s. send-Steps env _ n (λ id now me. refl)
