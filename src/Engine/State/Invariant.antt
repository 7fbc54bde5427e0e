-- ===== src/Engine/State/Invariant.antt =====
-- The invariant of the state of rabia-engine/src/state.rs, operation by operation.
use rabia.Base.{ℕ, suc, ◌-◌, ◌*◌, ◌≤◌, ◌<◌, ◌≡◌, refl, ◌∙◌, Bool, [], arith, u64_mod}
use rabia.Base.Assoc.{
  keys, Entries, insert-Distinct, erase-Distinct, retain-Distinct, keys-adjust, insert-Entries,
  erase-Entries, retain-Entries, adjust-Entries,
}
use rabia.Base.NodeSet.{NodeSet, Distinct}
use rabia.Core.Types.{NodeId, BatchId, PhaseId, CommandBatch}
use rabia.Core.Message.{SyncResponseMessage}
use rabia.Core.Phase.{PhaseData, new_phase, PendingBatch, new_pending}
use rabia.Engine.State.{
  EngineState, init, increment_version, advance_phase, commit_loop, commit_phase, set_active,
  set_quorum, store_active_nodes, update_active_nodes, add_pending_batch, remove_pending_batch,
  get_or_create_phase, update_phase, cleanup_old_phases, cleanup_old_pending_batches,
  add_sync_response, is_recent, is_fresh, clear_sync_responses,
}

-- A phase is filed under its own number.
abbrev pub FiledPhase : PhaseId → PhaseData → Type 0
FiledPhase k p = p.phase_id ≡ k

-- A pending batch is filed under its own identifier.
abbrev pub FiledBatch : BatchId → PendingBatch → Type 0
FiledBatch k b = b.batch.id ≡ k

-- Nothing past the current phase is committed, no map holds a key twice, and phases and batches
-- are filed under their own keys.
pub record IsValid (s : EngineState) : Type 0 where
  pub ordered : s.last_committed_phase ≤ s.current_phase
  pub phases_distinct : Distinct (keys s.phases)
  pub phases_filed : Entries FiledPhase s.phases
  pub batches_distinct : Distinct (keys s.pending_batches)
  pub batches_filed : Entries FiledBatch s.pending_batches
  pub responses_distinct : Distinct (keys s.sync_responses)

pub init-IsValid : (q : ℕ) → IsValid (init q)
init-IsValid q = ground arith

-- The counter of phases must not wrap around, which takes 2^64 phases.
pub advance_phase-IsValid :
    (s : EngineState) → suc s.current_phase < u64_mod → IsValid s → IsValid (advance_phase s).1
unfolding advance_phase
advance_phase-IsValid s h v = ground arith

pub commit_phase-IsValid :
    (phase_id : PhaseId) (s : EngineState) → IsValid s → IsValid (commit_phase phase_id [] s).1
unfolding commit_phase commit_loop
commit_phase-IsValid phase_id s v = ground arith

pub set_active-IsValid : (b : Bool) (s : EngineState) → IsValid s → IsValid (set_active b s)
unfolding set_active
set_active-IsValid b s v = ground arith

pub set_quorum-IsValid : (b : Bool) (s : EngineState) → IsValid s → IsValid (set_quorum b s)
unfolding set_quorum
set_quorum-IsValid b s v = ground arith

store_active_nodes-IsValid :
    (nodes : NodeSet) (s : EngineState) → IsValid s → IsValid (store_active_nodes nodes s)
unfolding increment_version
store_active_nodes-IsValid nodes s v = ground arith

pub update_active_nodes-IsValid :
    (nodes : NodeSet) (s : EngineState) → IsValid s → IsValid (update_active_nodes nodes s)
unfolding update_active_nodes
update_active_nodes-IsValid nodes s v =
    set_active-IsValid _ _ (set_quorum-IsValid _ _ (store_active_nodes-IsValid nodes s v))

pub add_pending_batch-IsValid :
    (now : ℕ) (b : CommandBatch) (n : NodeId) (s : EngineState)
    → IsValid s
    → IsValid (add_pending_batch now b n s).1
unfolding add_pending_batch
add_pending_batch-IsValid now b n s v = ground (
  arith,
  insert-Distinct b.id (new_pending now b n) s.pending_batches v.batches_distinct,
  insert-Entries FiledBatch b.id (new_pending now b n) s.pending_batches refl v.batches_filed,
)

pub remove_pending_batch-IsValid :
    (b : BatchId) (s : EngineState) → IsValid s → IsValid (remove_pending_batch b s).1
unfolding remove_pending_batch
remove_pending_batch-IsValid b s v = ground (
  arith,
  erase-Distinct b s.pending_batches v.batches_distinct,
  erase-Entries FiledBatch b s.pending_batches v.batches_filed,
)

pub get_or_create_phase-IsValid :
    (now : ℕ) (p : PhaseId) (s : EngineState) → IsValid s → IsValid (get_or_create_phase now p s).1
unfolding get_or_create_phase new_phase
get_or_create_phase-IsValid now p s v = ground (
  arith,
  insert-Distinct p (new_phase now p) s.phases v.phases_distinct,
  insert-Entries FiledPhase p (new_phase now p) s.phases refl v.phases_filed,
)

-- An update must leave the phase's number alone.
pub update_phase-IsValid :
    (p : PhaseId) (f : PhaseData → PhaseData) (s : EngineState)
    → ((d : PhaseData) → (f d).phase_id ≡ d.phase_id)
    → IsValid s
    → IsValid (update_phase p f s)
unfolding update_phase
update_phase-IsValid p f s same v = ground (
  arith,
  keys-adjust p f s.phases,
  adjust-Entries FiledPhase p f s.phases (λ j d e. same d ∙ e) v.phases_filed,
)

pub cleanup_old_phases-IsValid :
    (now history : ℕ) (s : EngineState) → IsValid s → IsValid (cleanup_old_phases now history s).1
unfolding cleanup_old_phases
cleanup_old_phases-IsValid now history s v = ground (
  arith,
  retain-Distinct (is_recent history s) s.phases v.phases_distinct,
  retain-Entries FiledPhase (is_recent history s) s.phases v.phases_filed,
)

pub cleanup_old_pending_batches-IsValid :
    (now age : ℕ) (s : EngineState) → IsValid s → IsValid (cleanup_old_pending_batches now age s).1
unfolding cleanup_old_pending_batches
cleanup_old_pending_batches-IsValid now age s v = ground (
  arith,
  retain-Distinct (is_fresh (now - age * 1000)) s.pending_batches v.batches_distinct,
  retain-Entries FiledBatch (is_fresh (now - age * 1000)) s.pending_batches v.batches_filed,
)

pub add_sync_response-IsValid :
    (n : NodeId) (r : SyncResponseMessage) (s : EngineState)
    → IsValid s
    → IsValid (add_sync_response n r s)
unfolding add_sync_response
add_sync_response-IsValid n r s v =
    ground (arith, insert-Distinct n r s.sync_responses v.responses_distinct)

pub clear_sync_responses-IsValid : (s : EngineState) → IsValid s → IsValid (clear_sync_responses s)
unfolding clear_sync_responses
clear_sync_responses-IsValid s v = ground arith
