-- ===== src/Engine/State/Examples.antt =====
-- The theorem on commits at a concrete input.
use rabia.Base.{◌≤◌, ◌≡◌, ◌↔◌, true, false, [], ◌∷◌, arith}
use rabia.Core.Error.{ok, is_ok}
use rabia.Engine.State.{commit_phase}
use rabia.Engine.State.Commit.{commit_phase_lem}
use rabia.Engine.Samples.{fifth}

-- Another thread commits phase 4 first.
commit_phase_lem_example :
    let r = commit_phase 5 (4 ∷ []) fifth in
    ((is_ok r.0 ≡ true) ↔ (5 ≤ 5))
    × (is_ok r.0 ≡ true → 5 ≤ r.1.last_committed_phase)
    × (3 ≤ r.1.last_committed_phase)
    × (r.0 ≡ ok true → r.1.last_committed_phase ≡ 5)
    × (is_ok r.0 ≡ false → r.1 ≡ fifth)
commit_phase_lem_example = commit_phase_lem 5 (4 ∷ []) fifth (omega arith, tt)
