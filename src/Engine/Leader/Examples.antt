-- ===== src/Engine/Leader/Examples.antt =====
-- The theorems on the leader at concrete inputs.
use rabia.Base.{◌≡◌, refl, ◌↔◌, true, [], ◌∷◌, some}
use rabia.Base.NodeSet.{NodeSet}
use rabia.Engine.Leader.{LeaderSelector, new, update_cluster_view, is_leader}
use rabia.Engine.Leader.Election.{IsLeast, leader-IsLeast}

abbrev cluster : NodeSet
cluster = 3 ∷ 1 ∷ 2 ∷ []

abbrev reordered : NodeSet
reordered = 2 ∷ 3 ∷ 1 ∷ []

abbrev led_by_one : LeaderSelector
led_by_one = record { cluster_view = 1 ∷ 4 ∷ []; current_leader = some 1 }

leader-IsLeast_example :
    (is_leader 1 (update_cluster_view cluster new).1 ≡ true) ↔ IsLeast 1 cluster
leader-IsLeast_example = leader-IsLeast cluster new 1 (refl, (refl, (refl, tt)))
