-- ===== src/Engine/State.antt =====
-- rabia-engine/src/state.rs: the state that the engine shares, and its operations. The atomic
-- counters are `u64`; a map of the state is an association list. What reads the clock takes the
-- reading, in the unit that the code takes, as an argument.
pub mod Commit
pub mod Invariant
pub mod Cleanup
pub mod Examples
use rabia.Base.{
  ℕ, suc, ◌+◌, ◌-◌, ◌*◌, Bool, true, false, not, ◌&&◌, ◌||◌, List, [], ◌∷◌, Option, none, some, ltb,
  leb, ◌==◌, if◌then◌else◌, length, wrapping_inc, is_some,
}
use rabia.Base.Assoc.{Assoc, lookup, insert, erase, adjust, retain, dropped}
use rabia.Base.NodeSet.{NodeSet, set_eq}
use rabia.Core.Types.{NodeId, BatchId, PhaseId, CommandBatch}
use rabia.Core.Error.{RabiaError, invalid_state_transition, Result, ok, err, format}
use rabia.Core.Message.{SyncResponseMessage}
use rabia.Core.Phase.{PhaseData, new_phase, PendingBatch, new_pending}

pub record EngineState : Type 0 where
  pub current_phase : PhaseId
  pub last_committed_phase : PhaseId
  pub is_active : Bool
  pub has_quorum : Bool
  pub pending_batches : Assoc PendingBatch
  pub phases : Assoc PhaseData
  pub sync_responses : Assoc SyncResponseMessage
  pub active_nodes : NodeSet
  pub quorum_size : ℕ
  pub state_version : ℕ
  pub last_cleanup : ℕ

-- `EngineState::new`
abbrev pub init : ℕ → EngineState
init quorum_size = record {
  current_phase = 0;
  last_committed_phase = 0;
  is_active = true;
  has_quorum = true;
  pending_batches = [];
  phases = [];
  sync_responses = [];
  active_nodes = [];
  quorum_size = quorum_size;
  state_version = 1;
  last_cleanup = 0;
}

unfoldable pub increment_version : EngineState → EngineState
increment_version s = record s { state_version = wrapping_inc s.state_version }

-- `fetch_add` wraps around; the identifier returned is the old value plus one.
unfoldable pub advance_phase : EngineState → PhaseId × EngineState
unfolding increment_version
advance_phase s = (
  wrapping_inc s.current_phase,
  increment_version (record s { current_phase = wrapping_inc s.current_phase }),
)

-- The compare-and-exchange loop. The list holds, for each failed exchange, the value found in its
-- place, which another thread wrote or, after a spurious failure, the old value. Past the list's
-- end the exchange succeeds.
unfoldable pub commit_loop : PhaseId → List PhaseId → EngineState → Bool × EngineState
unfolding increment_version
commit_loop target [] s =
    if ltb s.last_committed_phase target
    then (true, increment_version (record s { last_committed_phase = target }))
    else (false, s)
commit_loop target (actual ∷ rest) s =
    let found = record s { last_committed_phase = actual } in
    let again = commit_loop target rest found in
    if ltb s.last_committed_phase target
    then if leb target actual then (false, found) else again
    else (false, s)

-- `commit_phase`, the exchanges that fail being given.
unfoldable pub commit_phase : PhaseId → List PhaseId → EngineState → Result Bool × EngineState
commit_phase phase_id failures s =
    if ltb s.current_phase phase_id
    then (
      err (
          invalid_state_transition (format "current_phase={}" (s.current_phase ∷ []))
            (format "commit_phase={}" (phase_id ∷ []))),
      s,
    )
    else let (moved, s') = commit_loop phase_id failures s in (ok moved, s')

abbrev bool_eq : Bool → Bool → Bool
bool_eq true b = b
bool_eq false b = not b

unfoldable pub set_active : Bool → EngineState → EngineState
unfolding increment_version
set_active active s =
    let s' = record s { is_active = active } in
    if not (bool_eq s.is_active active) then increment_version s' else s'

unfoldable pub set_quorum : Bool → EngineState → EngineState
unfolding increment_version
set_quorum quorum s =
    let s' = record s { has_quorum = quorum } in
    if not (bool_eq s.has_quorum quorum) then increment_version s' else s'

abbrev pub store_active_nodes : NodeSet → EngineState → EngineState
store_active_nodes nodes s =
    if not (set_eq s.active_nodes nodes)
    then increment_version (record s { active_nodes = nodes })
    else s

unfoldable pub update_active_nodes : NodeSet → EngineState → EngineState
unfolding increment_version
update_active_nodes nodes s =
    let quorum = leb s.quorum_size (length nodes) in
    set_active quorum (set_quorum quorum (store_active_nodes nodes s))

unfoldable pub add_pending_batch : ℕ → CommandBatch → NodeId → EngineState → BatchId × EngineState
unfolding increment_version
add_pending_batch now batch originator s = (
  batch.id,
  increment_version (record s {
    pending_batches = insert batch.id (new_pending now batch originator) s.pending_batches;
  }),
)

unfoldable pub remove_pending_batch : BatchId → EngineState → Option PendingBatch × EngineState
unfolding increment_version
remove_pending_batch batch_id s =
    let result = lookup batch_id s.pending_batches in
    let s' = record s { pending_batches = erase batch_id s.pending_batches } in
    (result, if is_some result then increment_version s' else s')

abbrev pub get_pending_batch : BatchId → EngineState → Option PendingBatch
get_pending_batch batch_id s = lookup batch_id s.pending_batches

abbrev pub get_phase : PhaseId → EngineState → Option PhaseData
get_phase phase_id s = lookup phase_id s.phases

unfoldable pub get_or_create_phase : ℕ → PhaseId → EngineState → PhaseData × EngineState
unfolding increment_version
get_or_create_phase now phase_id s = elim (lookup phase_id s.phases) [
  | some p ↦ (p, s)
  | none ↦ (
    new_phase now phase_id,
    increment_version (record s { phases = insert phase_id (new_phase now phase_id) s.phases }),
  )
]

-- `update_phase`: a phase that is not there is not made.
unfoldable pub update_phase : PhaseId → (PhaseData → PhaseData) → EngineState → EngineState
unfolding increment_version
update_phase phase_id f s =
    if is_some (lookup phase_id s.phases)
    then increment_version (record s { phases = adjust phase_id f s.phases })
    else s

abbrev pub cutoff_phase : ℕ → EngineState → PhaseId
cutoff_phase max_phase_history s =
    if ltb max_phase_history s.current_phase then s.current_phase - max_phase_history else 0

-- The test by which `retain` keeps a phase.
abbrev pub is_recent : ℕ → EngineState → PhaseId → PhaseData → Bool
is_recent max_phase_history s phase_id _ = leb (cutoff_phase max_phase_history s) phase_id

unfoldable pub cleanup_old_phases : ℕ → ℕ → EngineState → ℕ × EngineState
unfolding increment_version
cleanup_old_phases now_secs max_phase_history s =
    let kept = retain (is_recent max_phase_history s) s.phases in
    let removed_count = dropped (is_recent max_phase_history s) s.phases in
    (
      removed_count,
      if ltb 0 removed_count
          then increment_version (record s { phases = kept; last_cleanup = now_secs })
          else record s { phases = kept },
    )

-- The test by which `retain` keeps a pending batch.
abbrev pub is_fresh : ℕ → BatchId → PendingBatch → Bool
is_fresh cutoff _ pending = leb cutoff pending.received_timestamp

unfoldable pub cleanup_old_pending_batches : ℕ → ℕ → EngineState → ℕ × EngineState
unfolding increment_version
cleanup_old_pending_batches now max_age_secs s =
    let cutoff = now - max_age_secs * 1000 in
    let kept = retain (is_fresh cutoff) s.pending_batches in
    let removed_count = dropped (is_fresh cutoff) s.pending_batches in
    (
      removed_count,
      if ltb 0 removed_count
          then increment_version (record s { pending_batches = kept })
          else record s { pending_batches = kept },
    )

unfoldable pub add_sync_response : NodeId → SyncResponseMessage → EngineState → EngineState
add_sync_response node_id response s = record s {
  sync_responses = insert node_id response s.sync_responses;
}

unfoldable pub clear_sync_responses : EngineState → EngineState
clear_sync_responses s = record s { sync_responses = [] }

pub record EngineStatistics : Type 0 where
  pub current_phase : PhaseId
  pub last_committed_phase : PhaseId
  pub pending_batches_count : ℕ
  pub phases_count : ℕ
  pub active_nodes_count : ℕ
  pub has_quorum : Bool
  pub is_active : Bool
  pub state_version : ℕ

unfoldable pub get_statistics : EngineState → EngineStatistics
get_statistics s = record {
  current_phase = s.current_phase;
  last_committed_phase = s.last_committed_phase;
  pending_batches_count = length s.pending_batches;
  phases_count = length s.phases;
  active_nodes_count = length s.active_nodes;
  has_quorum = s.has_quorum;
  is_active = s.is_active;
  state_version = s.state_version;
}
