-- ===== src/Engine/Leader/Election.antt =====
-- The leader of rabia-engine/src/leader.rs, from the set of nodes.
use rabia.Base.{
  ◌≤◌, ◌≡◌, refl, sym, ◌∙◌, ◌↔◌, inl, inr, ◌≢◌, true, not, ◌||◌, ◌&&◌, List, [], ◌∷◌, Option, none,
  some, arith, ◌==◌, if◌then◌else◌, ap, Bool-cases, ==_iff,
}
use rabia.Base.NodeSet.{
  NodeSet, contains, insert, remove, Distinct, Subset, insert-Distinct, remove-Distinct,
  contains-append, contains-remove_self, contains-remove_other,
}
use rabia.Core.Types.{NodeId}
use rabia.Engine.Leader.{
  LeaderSelector, sort, first, leader_eq, update_cluster_view, add_node, remove_node, get_leader,
  is_leader,
}
use rabia.Engine.Leader.Order.{
  Ascending, contains-sort, sort-Ascending, below_contained, not-contains-above, Ascending-unique,
}

-- The view is sorted, without repetition, and the leader is its first node.
pub record IsElected (l : LeaderSelector) : Type 0 where
  pub sorted : Ascending l.cluster_view
  pub leads : l.current_leader ≡ first l.cluster_view

-- Two sets of nodes with the same members.
abbrev pub SameNodes : NodeSet → NodeSet → Type 0
SameNodes xs ys = Subset xs ys × Subset ys xs

Ascending-Distinct : (xs : List NodeId) → Ascending xs → Distinct xs
Ascending-Distinct [] a = tt
Ascending-Distinct (x ∷ xs) a = (not-contains-above x xs a.0, Ascending-Distinct xs a.1)

update_cluster_view-IsElected :
    (nodes : NodeSet) (l : LeaderSelector)
    → Distinct nodes
    → IsElected (update_cluster_view nodes l).1
unfolding update_cluster_view
update_cluster_view-IsElected nodes l d = record { sorted = sort-Ascending nodes d; leads = refl }

sort-SameNodes : (xs ys : NodeSet) → Distinct xs → Distinct ys → SameNodes xs ys → sort xs ≡ sort ys
sort-SameNodes xs ys dx dy same =
    Ascending-unique (sort xs) (sort ys) (sort-Ascending xs dx) (sort-Ascending ys dy)
      (λ a h. contains-sort a ys ∙ same.0 a (sym (contains-sort a xs) ∙ h))
      (λ a h. contains-sort a xs ∙ same.1 a (sym (contains-sort a ys) ∙ h))

-- Two nodes that learn the same set of members, in whatever order, have the same view and the
-- same leader.
pub election_deterministic :
    (xs ys : NodeSet) (l k : LeaderSelector)
    → Distinct xs
    → Distinct ys
    → SameNodes xs ys
    → (update_cluster_view xs l).1 ≡ (update_cluster_view ys k).1
unfolding update_cluster_view
election_deterministic xs ys l k dx dy same =
    ap (λ view. record { cluster_view = view; current_leader = first view })
      (sort-SameNodes xs ys dx dy same)

-- A node is the least member of a set.
abbrev pub IsLeast : NodeId → NodeSet → Type 0
IsLeast n nodes = (contains n nodes ≡ true) × ((m : NodeId) → contains m nodes ≡ true → n ≤ m)

first-IsLeast :
    (n : NodeId) (xs : List NodeId)
    → Ascending xs
    → (leader_eq (first xs) (some n) ≡ true) ↔ IsLeast n xs
first-IsLeast n [] a = (λ h. absurd (cc), λ h. absurd (cc (h.0)))
first-IsLeast n (x ∷ xs) a = (
  λ h. (ground arith, λ m c. ground (arith, below_contained x m xs a.0)),
  λ h. ground (arith, h.1 x (ground arith), below_contained x n xs a.0),
)

-- The leader is the least of the nodes.
pub leader-IsLeast :
    (nodes : NodeSet) (l : LeaderSelector) (n : NodeId)
    → Distinct nodes
    → (is_leader n (update_cluster_view nodes l).1 ≡ true) ↔ IsLeast n nodes
unfolding update_cluster_view is_leader
leader-IsLeast nodes l n d =
    let least = first-IsLeast n (sort nodes) (sort-Ascending nodes d) in
    (
      λ h. (
        sym (contains-sort n nodes) ∙ (least.0 h).0,
        λ m c. (least.0 h).1 m (contains-sort m nodes ∙ c),
      ),
      λ h. least.1 (contains-sort n nodes ∙ h.0, λ m c. h.1 m (sym (contains-sort m nodes) ∙ c)),
    )

leader_change :
    (new_leader old_leader : Option NodeId) (n : NodeId)
    → ((if not (leader_eq new_leader old_leader) then new_leader else none) ≡ some n)
      ↔ ((new_leader ≡ some n) × (old_leader ≢ some n))
leader_change a b n = (λ h. (ground arith, λ e. ground arith), λ h. ground arith)

-- The result names the leader exactly when there is one and it is another than before.
pub update_cluster_view_result :
    (nodes : NodeSet) (l : LeaderSelector) (n : NodeId)
    → ((update_cluster_view nodes l).0 ≡ some n)
      ↔ ((get_leader (update_cluster_view nodes l).1 ≡ some n) × (get_leader l ≢ some n))
unfolding update_cluster_view
update_cluster_view_result nodes l n = leader_change (first (sort nodes)) l.current_leader n

contains-insert :
    (n m : NodeId) (xs : NodeSet) → contains m (insert n xs) ≡ (m == n) || contains m xs
contains-insert n m xs = elim (Bool-cases (m == n)) [
  | inl same ↦ rw ((==_iff m n).0 same) (ground (arith, contains-append n xs (n ∷ [])))
  | inr other ↦ ground (arith, contains-append m xs (n ∷ []))
]

contains-remove :
    (n m : NodeId) (xs : NodeSet)
    → Distinct xs
    → contains m (remove n xs) ≡ not (n == m) && contains m xs
contains-remove n m xs d = elim (Bool-cases (n == m)) [
  | inl same ↦ rw ((==_iff n m).0 same) (ground (arith, contains-remove_self m xs d))
  | inr other ↦ ground (arith, contains-remove_other n m xs other)
]

-- A node that joins is a member afterwards and one that leaves is not; the others stay as they
-- were, and the selector stays well formed.
pub membership_changes :
    (n m : NodeId) (l : LeaderSelector)
    → IsElected l
    → IsElected (add_node n l).1
      × IsElected (remove_node n l).1
      × (contains m (add_node n l).1.cluster_view ≡ (m == n) || contains m l.cluster_view)
      × (contains m (remove_node n l).1.cluster_view ≡ not (n == m) && contains m l.cluster_view)
unfolding add_node remove_node update_cluster_view
membership_changes n m l e =
    let distinct = Ascending-Distinct l.cluster_view e.sorted in
    (
      update_cluster_view-IsElected (insert n l.cluster_view) l
          (insert-Distinct n l.cluster_view distinct),
      update_cluster_view-IsElected (remove n l.cluster_view) l
          (remove-Distinct n l.cluster_view distinct),
      rw (contains-sort m (insert n l.cluster_view)) (contains-insert n m l.cluster_view),
      rw (contains-sort m (remove n l.cluster_view)) (contains-remove n m l.cluster_view distinct),
    )
