-- ===== src/Core/Network/Monitor.antt =====
-- `NetworkMonitor::update_connected_nodes` of rabia-core/src/network.rs: the kinds of events in what
-- it returns.
use rabia.Base.{
  ◌≡◌, refl, Bool, true, false, not, ◌&&◌, ◌||◌, List, [], ◌∷◌, ◌++◌, map, arith, ◌==◌,
}
use rabia.Base.NodeSet.{NodeSet, contains, difference}
use rabia.Core.Types.{NodeId}
use rabia.Core.Network.{
  has_quorum, NetworkEvent, node_connected, node_disconnected, network_partition, quorum_lost,
  quorum_restored, NetworkMonitor, quorum_events, partition_events, update_connected_nodes,
}

-- The kinds of events, and whether a list has one of a kind.
abbrev pub connects : NodeId → NetworkEvent → Bool
connects n (node_connected k) = n == k
connects n _ = false

abbrev pub disconnects : NodeId → NetworkEvent → Bool
disconnects n (node_disconnected k) = n == k
disconnects n _ = false

abbrev pub loses_quorum : NetworkEvent → Bool
loses_quorum quorum_lost = true
loses_quorum _ = false

abbrev pub restores_quorum : NetworkEvent → Bool
restores_quorum (quorum_restored ns) = true
restores_quorum _ = false

abbrev pub any_event : (NetworkEvent → Bool) → List NetworkEvent → Bool
any_event p [] = false
any_event p (e ∷ es) = p e || any_event p es

any_event-append :
    (p : NetworkEvent → Bool) (xs ys : List NetworkEvent)
    → any_event p (xs ++ ys) ≡ any_event p xs || any_event p ys
any_event-append p [] ys = refl
any_event-append p (x ∷ xs) ys = ground (arith, any_event-append p xs ys)

any_connects :
    (n : NodeId) (xs : NodeSet) → any_event (connects n) (map node_connected xs) ≡ contains n xs
any_connects n [] = refl
any_connects n (x ∷ xs) = ground (arith, any_connects n xs)

any_disconnects :
    (n : NodeId) (xs : NodeSet)
    → any_event (disconnects n) (map node_disconnected xs) ≡ contains n xs
any_disconnects n [] = refl
any_disconnects n (x ∷ xs) = ground (arith, any_disconnects n xs)

-- Events of the one kind are none of the other.
none_of :
    (p : NetworkEvent → Bool) (f : NodeId → NetworkEvent) (xs : NodeSet)
    → ((k : NodeId) → p (f k) ≡ false)
    → any_event p (map f xs) ≡ false
none_of p f [] h = refl
none_of p f (x ∷ xs) h = ground (arith, h x, none_of p f xs h)

contains-difference :
    (n : NodeId) (xs ys : NodeSet)
    → contains n (difference xs ys) ≡ contains n xs && not (contains n ys)
contains-difference n [] ys = refl
contains-difference n (x ∷ xs) ys = ground (arith, contains-difference n xs ys)

any_connects-disconnected :
    (n : NodeId) (xs : NodeSet) → any_event (connects n) (map node_disconnected xs) ≡ false
any_connects-disconnected n xs = none_of (connects n) node_disconnected xs (λ k. refl)

any_disconnects-connected :
    (n : NodeId) (xs : NodeSet) → any_event (disconnects n) (map node_connected xs) ≡ false
any_disconnects-connected n xs = none_of (disconnects n) node_connected xs (λ k. refl)

any_event-parts :
    (p : NetworkEvent → Bool) (ws bs cs ds : List NetworkEvent)
    → any_event p (ws ++ (bs ++ (cs ++ ds)))
      ≡ any_event p ws || (any_event p bs || (any_event p cs || any_event p ds))
any_event-parts p ws bs cs ds = simp any_event-append

connects-quorum_events :
    (n : NodeId) (had has : Bool) (nodes : NodeSet)
    → any_event (connects n) (quorum_events had has nodes) ≡ false
connects-quorum_events n had has nodes = ground arith

disconnects-quorum_events :
    (n : NodeId) (had has : Bool) (nodes : NodeSet)
    → any_event (disconnects n) (quorum_events had has nodes) ≡ false
disconnects-quorum_events n had has nodes = ground arith

loses-quorum_events :
    (had has : Bool) (nodes : NodeSet)
    → any_event loses_quorum (quorum_events had has nodes) ≡ had && not has
loses-quorum_events had has nodes = ground arith

restores-quorum_events :
    (had has : Bool) (nodes : NodeSet)
    → any_event restores_quorum (quorum_events had has nodes) ≡ not had && has
restores-quorum_events had has nodes = ground arith

any-partition_events :
    (p : NetworkEvent → Bool) (xs ys nodes : NodeSet)
    → p (network_partition nodes) ≡ false
    → any_event p (partition_events xs ys nodes) ≡ false
any-partition_events p xs ys nodes h = ground arith

-- A node is reported as connected exactly when it is among the new nodes and was not among the old
-- ones, and as disconnected exactly when it is the other way round.
pub update_connected_nodes_reports :
    (n : NodeId) (nodes : NodeSet) (m : NetworkMonitor)
    → let events = (update_connected_nodes nodes m).0 in
      (any_event (connects n) events ≡ contains n nodes && not (contains n m.connected_nodes))
      × (any_event (disconnects n) events ≡ contains n m.connected_nodes && not (contains n nodes))
unfolding update_connected_nodes
update_connected_nodes_reports n nodes m =
    let old = m.connected_nodes in
    let has = has_quorum m.config nodes in
    (
      rw
          (
            any_event-parts,
            any_connects n (difference nodes old),
            any_connects-disconnected n (difference old nodes),
            connects-quorum_events n m.has_quorum has nodes,
            any-partition_events (connects n) (difference nodes old) (difference old nodes) nodes
                refl,
            contains-difference n nodes old,
          )
          (ground arith),
      rw
          (
            any_event-parts,
            any_disconnects-connected n (difference nodes old),
            any_disconnects n (difference old nodes),
            disconnects-quorum_events n m.has_quorum has nodes,
            any-partition_events (disconnects n) (difference nodes old) (difference old nodes) nodes
                refl,
            contains-difference n old nodes,
          )
          (ground arith),
    )

-- The monitor's flag says whether its nodes are a quorum.
abbrev pub IsCurrent : NetworkMonitor → Type 0
IsCurrent m = m.has_quorum ≡ has_quorum m.config m.connected_nodes

-- After any update the flag is right; the loss of the quorum is reported exactly when the nodes
-- were a quorum before and are none now, and its return exactly the other way round.
pub update_connected_nodes_quorum :
    (nodes : NodeSet) (m : NetworkMonitor)
    → IsCurrent m
    → let r = update_connected_nodes nodes m in
      let before = has_quorum m.config m.connected_nodes in
      let after = has_quorum m.config nodes in
      IsCurrent r.1
      × (any_event loses_quorum r.0 ≡ before && not after)
      × (any_event restores_quorum r.0 ≡ not before && after)
unfolding update_connected_nodes
update_connected_nodes_quorum nodes m h =
    let old = m.connected_nodes in
    let has = has_quorum m.config nodes in
    (
      refl,
      rw
          (
            any_event-parts,
            none_of loses_quorum node_connected (difference nodes old) (λ k. refl),
            none_of loses_quorum node_disconnected (difference old nodes) (λ k. refl),
            loses-quorum_events m.has_quorum has nodes,
            any-partition_events loses_quorum (difference nodes old) (difference old nodes) nodes
                refl,
            h,
          )
          (ground arith),
      rw
          (
            any_event-parts,
            none_of restores_quorum node_connected (difference nodes old) (λ k. refl),
            none_of restores_quorum node_disconnected (difference old nodes) (λ k. refl),
            restores-quorum_events m.has_quorum has nodes,
            any-partition_events restores_quorum (difference nodes old) (difference old nodes) nodes
                refl,
            h,
          )
          (ground arith),
    )
