-- ===== src/Engine/State/Cleanup.antt =====
-- The maps of the state of rabia-engine/src/state.rs after each operation.
use rabia.Base.{
  ℕ, ◌+◌, ◌≡◌, refl, Option, none, some, arith, ltb, leb, ◌==◌, ==_iff, if◌then◌else◌, length,
}
use rabia.Base.Assoc.{
  lookup-retain_key, length-retain, lookup-insert, lookup-erase_self, lookup-adjust-some,
  lookup-adjust_ne,
}
use rabia.Base.NodeSet.{NodeSet}
use rabia.Core.Types.{PhaseId, BatchId, NodeId, CommandBatch}
use rabia.Core.Phase.{PhaseData, new_phase, new_pending}
use rabia.Engine.State.{
  EngineState, get_phase, get_pending_batch, get_or_create_phase, update_phase, is_recent,
  cutoff_phase, cleanup_old_phases, add_pending_batch, remove_pending_batch, update_active_nodes,
  set_quorum, set_active,
}
use rabia.Engine.State.Invariant.{IsValid}

-- Exactly the phases more than `max_phase_history` behind the current one are removed; all others
-- are kept as they are, and the number returned is that of the phases removed.
pub cleanup_old_phases_lem :
    (now history : ℕ) (s : EngineState) (p : PhaseId)
    → let r = cleanup_old_phases now history s in
      (get_phase p r.1 ≡ (if ltb (p + history) s.current_phase then none else get_phase p s))
      × (length r.1.phases + r.0 ≡ length s.phases)
      × (r.1.current_phase ≡ s.current_phase)
unfolding cleanup_old_phases
cleanup_old_phases_lem now history s p = (
  ground (arith, lookup-retain_key (λ j. leb (cutoff_phase history s) j) p s.phases),
  ground (arith, length-retain (is_recent history s) s.phases),
  ground arith,
)

-- A batch that is added is found under its identifier, with its originator, not retried yet; the
-- other batches stay as they are.
pub get-add_pending_batch :
    (now : ℕ) (b : CommandBatch) (n : NodeId) (s : EngineState) (k : BatchId)
    → get_pending_batch k (add_pending_batch now b n s).1
      ≡ (if k == b.id then some (new_pending now b n) else get_pending_batch k s)
unfolding add_pending_batch
get-add_pending_batch now b n s k = lookup-insert b.id k (new_pending now b n) s.pending_batches

-- Removing a batch hands it out and leaves it nowhere; a second removal finds nothing.
pub remove_pending_batch_twice :
    (k : BatchId) (s : EngineState)
    → IsValid s
    → ((remove_pending_batch k s).0 ≡ get_pending_batch k s)
      × ((remove_pending_batch k (remove_pending_batch k s).1).0 ≡ none)
unfolding remove_pending_batch
remove_pending_batch_twice k s v =
    (refl, ground (arith, lookup-erase_self k s.pending_batches v.batches_distinct))

-- A phase that is there, changed; none if it is not.
abbrev pub changed : (PhaseData → PhaseData) → Option PhaseData → Option PhaseData
changed f none = none
changed f (some d) = some (f d)

pub get-update_same :
    (p : PhaseId) (f : PhaseData → PhaseData) (s : EngineState) (o : Option PhaseData)
    → get_phase p s ≡ o
    → get_phase p (update_phase p f s) ≡ changed f o
unfolding update_phase
get-update_same p f s none h = ground arith
get-update_same p f s (some d) h = ground (arith, lookup-adjust-some p f s.phases d h)

-- `update_phase` changes the phase that it is called on if that is there, makes none if it is not,
-- and leaves all other phases as they are. `get_or_create_phase` leaves on file what it returns.
pub get-update_phase :
    (p k : PhaseId) (f : PhaseData → PhaseData) (now : ℕ) (s : EngineState)
    → (get_phase k (update_phase p f s)
        ≡ (if k == p then changed f (get_phase p s) else get_phase k s))
      × (get_phase p (get_or_create_phase now p s).1 ≡ some (get_or_create_phase now p s).0)
unfolding update_phase get_or_create_phase
get-update_phase p k f now s = (
  ground (
    arith,
    lookup-adjust_ne p k f s.phases,
    get-update_same p f s (get_phase p s) refl,
    ==_iff k p,
  ),
  ground (arith, lookup-insert p p (new_phase now p) s.phases),
)

-- After the active nodes change, the engine counts as active, and as having a quorum, exactly when
-- there are at least `quorum_size` of them.
pub update_active_nodes_quorum :
    (nodes : NodeSet) (s : EngineState)
    → let s' = update_active_nodes nodes s in
      (s'.has_quorum ≡ leb s.quorum_size (length nodes))
      × (s'.is_active ≡ leb s.quorum_size (length nodes))
unfolding update_active_nodes set_quorum set_active
update_active_nodes_quorum nodes s = ground arith
