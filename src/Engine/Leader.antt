-- ===== src/Engine/Leader.antt =====
-- rabia-engine/src/leader.rs: the cluster view and the leader in it. The library's sort is stood for
-- by insertion, whose result any correct sort of a total order must have.
pub mod Order
pub mod Election
pub mod Examples
use rabia.Base.{
  ℕ, Bool, true, false, not, List, [], ◌∷◌, Option, none, some, leb, ◌==◌, if◌then◌else◌, length,
  is_empty,
}
use rabia.Base.NodeSet.{NodeSet, insert, remove}
use rabia.Core.Types.{NodeId}

pub record LeaderSelector : Type 0 where
  pub cluster_view : List NodeId
  pub current_leader : Option NodeId

pub record LeadershipInfo : Type 0 where
  pub leader : Option NodeId
  pub cluster_nodes : List NodeId
  pub cluster_size : ℕ

-- `LeaderSelector::new`
abbrev pub new : LeaderSelector
new = record { cluster_view = []; current_leader = none }

-- The library's sort.
unfoldable pub insert_sorted : NodeId → List NodeId → List NodeId
insert_sorted n [] = n ∷ []
insert_sorted n (x ∷ xs) = if leb n x then n ∷ x ∷ xs else x ∷ insert_sorted n xs

unfoldable pub sort : List NodeId → List NodeId
sort [] = []
sort (n ∷ ns) = insert_sorted n (sort ns)

abbrev pub first : List NodeId → Option NodeId
first [] = none
first (x ∷ xs) = some x

unfoldable pub determine_leader : LeaderSelector → Option NodeId
determine_leader l = first l.cluster_view

abbrev pub leader_eq : Option NodeId → Option NodeId → Bool
leader_eq none none = true
leader_eq (some a) (some b) = a == b
leader_eq _ _ = false

-- The new leader, if it changed.
unfoldable pub update_cluster_view : NodeSet → LeaderSelector → Option NodeId × LeaderSelector
unfolding determine_leader
update_cluster_view nodes l =
    let viewed = record l { cluster_view = sort nodes } in
    let l' = record viewed { current_leader = determine_leader viewed } in
    (if not (leader_eq l'.current_leader l.current_leader) then l'.current_leader else none, l')

unfoldable pub with_cluster : NodeSet → LeaderSelector
with_cluster nodes = (update_cluster_view nodes new).1

unfoldable pub add_node : NodeId → LeaderSelector → Option NodeId × LeaderSelector
add_node n l = update_cluster_view (insert n l.cluster_view) l

unfoldable pub remove_node : NodeId → LeaderSelector → Option NodeId × LeaderSelector
remove_node n l = update_cluster_view (remove n l.cluster_view) l

abbrev pub get_leader : LeaderSelector → Option NodeId
get_leader l = l.current_leader

unfoldable pub is_leader : NodeId → LeaderSelector → Bool
is_leader n l = leader_eq l.current_leader (some n)

unfoldable pub get_leadership_info : LeaderSelector → LeadershipInfo
get_leadership_info l = record {
  leader = l.current_leader;
  cluster_nodes = l.cluster_view;
  cluster_size = length l.cluster_view;
}

unfoldable pub has_nodes : LeaderSelector → Bool
has_nodes l = not (is_empty l.cluster_view)

unfoldable pub cluster_size : LeaderSelector → ℕ
cluster_size l = length l.cluster_view
