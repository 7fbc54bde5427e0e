-- ===== src/Engine/State/Commit.antt =====
-- `EngineState::commit_phase` of rabia-engine/src/state.rs, with other threads at work.
use rabia.Base.{◌≤◌, ◌≡◌, ◌↔◌, true, false, List, [], ◌∷◌, arith, ltb, max}
use rabia.Core.Types.{PhaseId}
use rabia.Core.Error.{ok, is_ok}
use rabia.Engine.State.{EngineState, commit_loop, commit_phase}

-- The values that failed exchanges find never fall: every writer only raises the counter.
abbrev pub Rising : PhaseId → List PhaseId → Type 0
Rising p [] = Unit
Rising p (q ∷ qs) = (p ≤ q) × Rising q qs

commit_loop_lem :
    (target : PhaseId) (failures : List PhaseId) (s : EngineState)
    → Rising s.last_committed_phase failures
    → let r = commit_loop target failures s in
      (target ≤ r.1.last_committed_phase)
      × (s.last_committed_phase ≤ r.1.last_committed_phase)
      × (r.1.current_phase ≡ s.current_phase)
      × (r.0 ≡ true → r.1.last_committed_phase ≡ target)
unfolding commit_loop
commit_loop_lem target [] s h = ground arith
commit_loop_lem target (q ∷ qs) s h =
    ground (arith, commit_loop_lem target qs (record s { last_committed_phase = q }) h.1)

-- A commit succeeds exactly when its phase is not past the current one, whatever other threads
-- write meanwhile, as long as they only raise the counter. Then the counter has reached the phase,
-- has not fallen, and is the phase itself where the call reports that it moved it. A commit that
-- fails changes nothing.
pub commit_phase_lem :
    (phase_id : PhaseId) (failures : List PhaseId) (s : EngineState)
    → Rising s.last_committed_phase failures
    → let r = commit_phase phase_id failures s in
      ((is_ok r.0 ≡ true) ↔ (phase_id ≤ s.current_phase))
      × (is_ok r.0 ≡ true → phase_id ≤ r.1.last_committed_phase)
      × (s.last_committed_phase ≤ r.1.last_committed_phase)
      × (r.0 ≡ ok true → r.1.last_committed_phase ≡ phase_id)
      × (is_ok r.0 ≡ false → r.1 ≡ s)
unfolding commit_phase
commit_phase_lem phase_id failures s h =
    let loop = commit_loop_lem phase_id failures s h in
    (
      (λ k. ground arith, λ k. ground arith),
      λ k. ground (arith, loop.0),
      ground (arith, loop.1),
      λ k. ground (arith, loop.3),
      λ k. ground arith,
    )

-- Without interference a commit moves the counter to the larger of the two phases, and says
-- whether that was a change.
pub commit_phase_alone :
    (phase_id : PhaseId) (s : EngineState)
    → phase_id ≤ s.current_phase
    → ((commit_phase phase_id [] s).0 ≡ ok (ltb s.last_committed_phase phase_id))
      × ((commit_phase phase_id [] s).1.last_committed_phase ≡ max s.last_committed_phase phase_id)
unfolding commit_phase commit_loop
commit_phase_alone phase_id s h = (ground arith, ground arith)
