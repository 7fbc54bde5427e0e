-- ===== src/Testing/Simulated.antt =====
-- `SimulatedNetwork` of rabia-testing/src/network_sim.rs: a node's end of the simulated network. The
-- k-th message of a broadcast goes with the k-th draw.
pub mod Actions
use rabia.Base.{
  ℕ, suc, ◌+◌, Bool, true, false, not, ◌&&◌, List, [], ◌∷◌, Option, none, some, ◌==◌, if◌then◌else◌,
}
use rabia.Base.NodeSet
use rabia.Base.NodeSet.{NodeSet}
use rabia.Core.Types.{NodeId}
use rabia.Core.Message.{ProtocolMessage}
use rabia.Testing.Simulator.{NetworkSimulator, Draw, add_inbox, send_message}

pub record SimulatedNetwork : Type 0 where
  pub node_id : NodeId
  pub connected_nodes : NodeSet

-- `SimulatedNetwork::new`, which enters the node into the simulator.
abbrev pub new_simulated : NodeId → NetworkSimulator → SimulatedNetwork × NetworkSimulator
new_simulated id s = (record { node_id = id; connected_nodes = [] }, add_inbox id s)

abbrev pub connect_to_nodes : NodeSet → SimulatedNetwork → SimulatedNetwork
connect_to_nodes nodes n = record n { connected_nodes = nodes }

abbrev pub send_simulated :
    ℕ → Draw → NodeId → ProtocolMessage → SimulatedNetwork → NetworkSimulator → NetworkSimulator
send_simulated now draw target m n s = send_message now draw n.node_id target m s

abbrev pub is_peer : NodeId → Option NodeId → NodeId → Bool
is_peer own none k = not (k == own)
is_peer own (some e) k = not (k == e) && not (k == own)

abbrev pub send_to_peers :
    ℕ
    → (ℕ → Draw)
    → NodeId
    → Option NodeId
    → ProtocolMessage
    → ℕ
    → NodeSet
    → NetworkSimulator
    → NetworkSimulator
send_to_peers now draws own exclude m i [] s = s
send_to_peers now draws own exclude m i (k ∷ ks) s =
    let sent =
      send_to_peers now draws own exclude m (suc i) ks (send_message now (draws i) own k m s) in
    let skipped = send_to_peers now draws own exclude m i ks s in
    if is_peer own exclude k then sent else skipped

unfoldable pub broadcast_simulated :
    ℕ
    → (ℕ → Draw)
    → ProtocolMessage
    → Option NodeId
    → SimulatedNetwork
    → NetworkSimulator
    → NetworkSimulator
broadcast_simulated now draws m exclude n s =
    send_to_peers now draws n.node_id exclude m 0 n.connected_nodes s

abbrev pub is_connected_simulated : NodeId → SimulatedNetwork → Bool
is_connected_simulated k n = NodeSet.contains k n.connected_nodes

-- `disconnect`; `reconnect` does nothing.
abbrev pub disconnect_simulated : SimulatedNetwork → SimulatedNetwork
disconnect_simulated n = record n { connected_nodes = [] }
