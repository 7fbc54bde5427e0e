-- ===== src/Engine/Growth.antt =====
-- The changes that a step of a handler of rabia-engine/src/engine.rs may make to the engine's state.
pub mod Rules
pub mod Decisions
pub mod Votes
pub mod Syncs
pub mod Turns
use rabia.Base.{
  ℕ, suc, ◌≤◌, ◌<◌, ◌≡◌, refl, ◌∙◌, List, [], ◌∷◌, arith, u64_mod, Bool, none, Option, some, false,
  true,
}
use rabia.Base.NodeSet.{NodeSet}
use rabia.Core.Types.{NodeId, BatchId, PhaseId, CommandBatch}
use rabia.Core.Message.{SyncResponseMessage}
use rabia.Core.Phase.{PhaseData}
use rabia.Engine.State.{
  EngineState, advance_phase, commit_phase, commit_loop, set_active, set_quorum,
  update_active_nodes, store_active_nodes, add_pending_batch, remove_pending_batch, update_phase,
  cleanup_old_phases, cleanup_old_pending_batches, add_sync_response, clear_sync_responses,
  increment_version, is_recent,
}
use rabia.Engine.State.Invariant.{
  IsValid, advance_phase-IsValid, commit_phase-IsValid, add_pending_batch-IsValid,
  remove_pending_batch-IsValid, update_phase-IsValid, cleanup_old_phases-IsValid,
  cleanup_old_pending_batches-IsValid, add_sync_response-IsValid, clear_sync_responses-IsValid,
}

-- From one state to a later one. Where no phase was on file, none is.
pub record Grows (s t : EngineState) : Type 0 where
  pub valid : IsValid s → IsValid t
  pub committed : s.last_committed_phase ≤ t.last_committed_phase
  pub current : s.current_phase ≤ t.current_phase
  pub no_phase : s.phases ≡ [] → t.phases ≡ []
  pub quorum_size : t.quorum_size ≡ s.quorum_size

-- The counter of phases does not wrap around at the next advance.
abbrev pub Fits : EngineState → Type 0
Fits s = suc s.current_phase < u64_mod

pub Grows-refl : (s : EngineState) → Grows s s
Grows-refl s = record {
  valid = λ v. v;
  committed = omega arith;
  current = omega arith;
  no_phase = λ e. e;
  quorum_size = refl;
}

pub Grows-trans : {s t u : EngineState} → Grows s t → Grows t u → Grows s u
Grows-trans g h = record {
  valid = λ v. h.valid (g.valid v);
  committed = omega arith;
  current = omega arith;
  no_phase = λ e. h.no_phase (g.no_phase e);
  quorum_size = h.quorum_size ∙ g.quorum_size;
}

pub advance_phase-Grows : (s : EngineState) → Fits s → Grows s (advance_phase s).1
unfolding advance_phase
advance_phase-Grows s f = record {
  valid = advance_phase-IsValid s f;
  committed = omega arith;
  current = omega arith;
  no_phase = λ e. e;
  quorum_size = refl;
}

pub commit_phase-Grows : (p : PhaseId) (s : EngineState) → Grows s (commit_phase p [] s).1
unfolding commit_phase commit_loop
commit_phase-Grows p s = record {
  valid = commit_phase-IsValid p s;
  committed = ground arith;
  current = ground arith;
  no_phase = λ e. ground arith;
  quorum_size = ground arith;
}

pub add_pending_batch-Grows :
    (now : ℕ) (b : CommandBatch) (n : NodeId) (s : EngineState)
    → Grows s (add_pending_batch now b n s).1
unfolding add_pending_batch
add_pending_batch-Grows now b n s = record {
  valid = add_pending_batch-IsValid now b n s;
  committed = omega arith;
  current = omega arith;
  no_phase = λ e. e;
  quorum_size = refl;
}

pub remove_pending_batch-Grows :
    (b : BatchId) (s : EngineState) → Grows s (remove_pending_batch b s).1
unfolding remove_pending_batch
remove_pending_batch-Grows b s = record {
  valid = remove_pending_batch-IsValid b s;
  committed = ground arith;
  current = ground arith;
  no_phase = λ e. ground arith;
  quorum_size = ground arith;
}

pub update_phase-Grows :
    (p : PhaseId) (f : PhaseData → PhaseData) (s : EngineState)
    → ((d : PhaseData) → (f d).phase_id ≡ d.phase_id)
    → Grows s (update_phase p f s)
unfolding update_phase
update_phase-Grows p f s same = record {
  valid = update_phase-IsValid p f s same;
  committed = ground arith;
  current = ground arith;
  no_phase = λ e. ground arith;
  quorum_size = ground arith;
}

pub cleanup_old_phases-Grows :
    (now history : ℕ) (s : EngineState) → Grows s (cleanup_old_phases now history s).1
unfolding cleanup_old_phases
cleanup_old_phases-Grows now history s = record {
  valid = cleanup_old_phases-IsValid now history s;
  committed = ground arith;
  current = ground arith;
  no_phase = λ e. ground arith;
  quorum_size = ground arith;
}

pub cleanup_old_pending_batches-Grows :
    (now age : ℕ) (s : EngineState) → Grows s (cleanup_old_pending_batches now age s).1
unfolding cleanup_old_pending_batches
cleanup_old_pending_batches-Grows now age s = record {
  valid = cleanup_old_pending_batches-IsValid now age s;
  committed = ground arith;
  current = ground arith;
  no_phase = λ e. ground arith;
  quorum_size = ground arith;
}

pub add_sync_response-Grows :
    (n : NodeId) (r : SyncResponseMessage) (s : EngineState) → Grows s (add_sync_response n r s)
unfolding add_sync_response
add_sync_response-Grows n r s = record {
  valid = add_sync_response-IsValid n r s;
  committed = omega arith;
  current = omega arith;
  no_phase = λ e. e;
  quorum_size = refl;
}

pub clear_sync_responses-Grows : (s : EngineState) → Grows s (clear_sync_responses s)
unfolding clear_sync_responses
clear_sync_responses-Grows s = record {
  valid = clear_sync_responses-IsValid s;
  committed = omega arith;
  current = omega arith;
  no_phase = λ e. e;
  quorum_size = refl;
}
