-- ===== src/Core/Network/Majority.antt =====
-- `ClusterConfig::is_majority` of rabia-core/src/network.rs: two tests of the nodes at once.
use rabia.Base.{◌+◌, ◌≤◌, ◌≡◌, Bool, true, false, [], ◌∷◌, arith, length, count_if}
use rabia.Base.NodeSet.{NodeSet}
use rabia.Core.Types.{NodeId}
use rabia.Core.Network.{new_cluster, is_majority}

-- Two tests that no node passes together.
abbrev pub Disjoint : (NodeId → Bool) → (NodeId → Bool) → Type 0
Disjoint p q = (n : NodeId) → p n ≡ true → q n ≡ false

pub count_if-Disjoint :
    (p q : NodeId → Bool) (nodes : NodeSet)
    → Disjoint p q
    → count_if p nodes + count_if q nodes ≤ length nodes
count_if-Disjoint p q [] d = omega arith
count_if-Disjoint p q (n ∷ ns) d = ground (arith, d n, count_if-Disjoint p q ns d)

-- The nodes that pass one test and the nodes that pass another cannot both be a majority of the
-- cluster unless some node passes both.
pub majorities_meet :
    (me : NodeId) (nodes : NodeSet) (p q : NodeId → Bool)
    → Disjoint p q
    → is_majority (new_cluster me nodes) (count_if p nodes) ≡ true
    → is_majority (new_cluster me nodes) (count_if q nodes) ≡ false
unfolding new_cluster is_majority
majorities_meet me nodes p q d h = ground (arith, count_if-Disjoint p q nodes d)
