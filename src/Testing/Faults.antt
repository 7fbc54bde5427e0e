-- ===== src/Testing/Faults.antt =====
-- rabia-testing/src/fault_injection.rs: what a fault does to the simulated network, now and after a
-- while, and how the outcome of a scenario is judged. A rate is read only by the generator of draws.
pub mod Verdicts
use rabia.Base.{
  ℕ, ◌+◌, ◌-◌, Bool, true, false, ◌&&◌, ◌||◌, List, [], ◌∷◌, Option, none, some, leb, ltb, ◌==◌,
  max, min, if◌then◌else◌,
}
use rabia.Base.NodeSet.{NodeSet}
use rabia.Core.Types.{NodeId}
use rabia.Testing.Simulator.{
  NetworkConditions, NetworkSimulator, NetworkAction, leave, partition, set_conditions,
  new_simulator,
}

pub data FaultType : Type 0 where
  node_crash : NodeId → ℕ → FaultType
  network_partition : NodeSet → ℕ → FaultType
  packet_loss : ℕ → FaultType
  high_latency : ℕ → ℕ → ℕ → FaultType
  slow_node : NodeId → ℕ → FaultType
  message_reordering : ℕ → FaultType

abbrev pub default_conditions : NetworkConditions
default_conditions = record { latency_min = 1; latency_max = 10 }

-- The part of `inject_fault` that is done at once, at a time, and the part that a task does after a
-- delay.
unfoldable pub inject_fault : ℕ → FaultType → List NetworkAction × List (ℕ × NetworkAction)
inject_fault now (node_crash k duration) = (leave k ∷ [], [])
inject_fault now (network_partition nodes duration) = (partition now nodes duration ∷ [], [])
inject_fault now (packet_loss duration) =
    (set_conditions default_conditions ∷ [], (duration, set_conditions default_conditions) ∷ [])
inject_fault now (high_latency low high duration) = (
  set_conditions (record { latency_min = low; latency_max = high }) ∷ [],
  (duration, set_conditions default_conditions) ∷ [],
)
inject_fault now (slow_node k duration) = ([], [])
inject_fault now (message_reordering max_delay) = ([], [])

pub data ExpectedOutcome : Type 0 where
  all_committed : ExpectedOutcome
  partial_commitment : ℕ → ExpectedOutcome
  no_progress : ExpectedOutcome
  eventual_consistency : ExpectedOutcome

-- The phases that the nodes that answered had committed.
pub record ActualOutcome : Type 0 where
  pub committed_phases : List ℕ
  pub current_phases : List ℕ
  pub nodes_with_progress : ℕ

abbrev pub all_b : (ℕ → Bool) → List ℕ → Bool
all_b f [] = true
all_b f (x ∷ xs) = f x && all_b f xs

abbrev pub any_b : (ℕ → Bool) → List ℕ → Bool
any_b f [] = false
any_b f (x ∷ xs) = f x || any_b f xs

-- `iter().max().unwrap_or(&0)`, and the same with `min`.
abbrev pub max_of : List ℕ → ℕ
max_of [] = 0
max_of (x ∷ xs) = max x (max_of xs)

abbrev pub min_from : ℕ → List ℕ → ℕ
min_from x [] = x
min_from x (y ∷ ys) = min_from (min x y) ys

abbrev pub min_of : List ℕ → ℕ
min_of [] = 0
min_of (x ∷ xs) = min_from x xs

abbrev pub same_positive : List ℕ → Bool
same_positive [] = false
same_positive (first ∷ rest) = all_b (λ p. p == first) (first ∷ rest) && ltb 0 first

unfoldable pub check_expected_outcome : ExpectedOutcome → ActualOutcome → Bool
check_expected_outcome all_committed actual = same_positive actual.committed_phases
check_expected_outcome (partial_commitment n) actual = any_b (leb n) actual.committed_phases
check_expected_outcome no_progress actual = all_b (λ p. p == 0) actual.committed_phases
check_expected_outcome eventual_consistency actual =
    leb (max_of actual.committed_phases - min_of actual.committed_phases) 2
