-- ===== src/Core/Network.antt =====
-- rabia-core/src/network.rs: the cluster's configuration, and the monitor that turns a change of
-- the connected nodes into events.
pub mod Majority
pub mod Monitor
use rabia.Base.{
  ℕ, suc, ◌+◌, ◌/◌, Bool, true, false, not, ◌&&◌, ◌||◌, List, [], ◌∷◌, ◌++◌, map, leb,
  if◌then◌else◌, length, is_empty,
}
use rabia.Base.NodeSet.{NodeSet, difference}
use rabia.Core.Types.{NodeId}

pub record ClusterConfig : Type 0 where
  pub node_id : NodeId
  pub all_nodes : NodeSet
  pub quorum_size : ℕ

-- `ClusterConfig::new`
unfoldable pub new_cluster : NodeId → NodeSet → ClusterConfig
new_cluster node_id all_nodes = record {
  node_id = node_id;
  all_nodes = all_nodes;
  quorum_size = length all_nodes / 2 + 1;
}

-- `ClusterConfig::has_quorum`
unfoldable pub has_quorum : ClusterConfig → NodeSet → Bool
has_quorum c active_nodes = leb c.quorum_size (length active_nodes)

unfoldable pub is_majority : ClusterConfig → ℕ → Bool
is_majority c count = leb c.quorum_size count

unfoldable pub total_nodes : ClusterConfig → ℕ
total_nodes c = length c.all_nodes

pub data NetworkEvent : Type 0 where
  node_connected : NodeId → NetworkEvent
  node_disconnected : NodeId → NetworkEvent
  network_partition : NodeSet → NetworkEvent
  quorum_lost : NetworkEvent
  quorum_restored : NodeSet → NetworkEvent

pub record NetworkMonitor : Type 0 where
  pub config : ClusterConfig
  pub connected_nodes : NodeSet
  pub has_quorum : Bool

-- `NetworkMonitor::new`: every node counts as connected at first.
unfoldable pub new_monitor : ClusterConfig → NetworkMonitor
unfolding has_quorum
new_monitor c = record {
  config = c;
  connected_nodes = c.all_nodes;
  has_quorum = has_quorum c c.all_nodes;
}

-- The event of a quorum that is lost or found again.
abbrev pub quorum_events : Bool → Bool → NodeSet → List NetworkEvent
quorum_events had has nodes =
    if had && not has
    then quorum_lost ∷ []
    else if not had && has
    then quorum_restored nodes ∷ []
    else []

abbrev pub partition_events : NodeSet → NodeSet → NodeSet → List NetworkEvent
partition_events connected disconnected nodes =
    if not (is_empty connected) || not (is_empty disconnected)
    then network_partition nodes ∷ []
    else []

unfoldable pub update_connected_nodes :
    NodeSet → NetworkMonitor → List NetworkEvent × NetworkMonitor
update_connected_nodes nodes m =
    let newly_connected = difference nodes m.connected_nodes in
    let newly_disconnected = difference m.connected_nodes nodes in
    let new_has_quorum = has_quorum m.config nodes in
    (
      map node_connected newly_connected
          ++ (map node_disconnected newly_disconnected
              ++ (quorum_events m.has_quorum new_has_quorum nodes
                  ++ partition_events newly_connected newly_disconnected nodes)),
      record m { connected_nodes = nodes; has_quorum = new_has_quorum },
    )
