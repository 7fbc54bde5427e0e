-- ===== src/Testing/InMemory.antt =====
-- rabia-testing/src/network/in_memory.rs: networks on a common bus. A channel is what was sent into
-- it, in order, with whether its receiver is there. Locks are held for one operation.
pub mod Routes
use rabia.Base.{
  ℕ, Bool, true, false, not, ◌&&◌, List, [], ◌∷◌, ◌++◌, Option, none, some, ◌==◌, if◌then◌else◌,
}
use rabia.Base.NodeSet
use rabia.Base.NodeSet.{NodeSet}
use rabia.Base.Dict.{Dict, nat_key, insert, update}
use rabia.Core.Types.{NodeId}
use rabia.Core.Error.{network, text, Result, ok, err}
use rabia.Core.Message.{ProtocolMessage}

-- A message with its sender and its receiver.
pub record Routed : Type 0 where
  pub from : NodeId
  pub to : NodeId
  pub message : ProtocolMessage

pub record Bus : Type 0 where
  pub is_open : Bool
  pub routed : List Routed

pub record InMemoryNetwork : Type 0 where
  pub node_id : NodeId
  pub message_queue : List (NodeId × ProtocolMessage)
  pub connected_nodes : NodeSet
  pub has_bus : Bool

-- `InMemoryNetwork::new`
abbrev pub new_in_memory : NodeId → InMemoryNetwork
new_in_memory id = record {
  node_id = id;
  message_queue = [];
  connected_nodes = [];
  has_bus = false;
}

abbrev pub connect_to_bus : InMemoryNetwork → InMemoryNetwork
connect_to_bus n = record n { has_bus = true }

abbrev pub deliver_message : NodeId → ProtocolMessage → InMemoryNetwork → InMemoryNetwork
deliver_message from m n = record n { message_queue = n.message_queue ++ (from, m) ∷ [] }

abbrev pub set_connected_nodes : NodeSet → InMemoryNetwork → InMemoryNetwork
set_connected_nodes nodes n = record n { connected_nodes = nodes }

abbrev pub onto : Bus → Routed → Bus
onto bus r = record bus { routed = bus.routed ++ r ∷ [] }

-- Without a bus a message is lost, and no error.
unfoldable pub send_over_bus :
    NodeId → ProtocolMessage → InMemoryNetwork → Bus → Result (Unit {0}) × Bus
send_over_bus target m n bus =
    if n.has_bus
    then if bus.is_open
      then (ok tt, onto bus (record { from = n.node_id; to = target; message = m }))
      else (err (network (text "Failed to send message to bus")), bus)
    else (ok tt, bus)

abbrev pub is_receiver : NodeId → Option NodeId → NodeId → Bool
is_receiver own none k = not (k == own)
is_receiver own (some e) k = not (k == e) && not (k == own)

-- The loop over the connected nodes, which ends at the first failure.
abbrev pub broadcast_to :
    NodeId → Option NodeId → ProtocolMessage → NodeSet → Bus → Result (Unit {0}) × Bus
broadcast_to own exclude m [] bus = (ok tt, bus)
broadcast_to own exclude m (k ∷ ks) bus =
    let sent =
      broadcast_to own exclude m ks (onto bus (record { from = own; to = k; message = m })) in
    let skipped = broadcast_to own exclude m ks bus in
    if is_receiver own exclude k
    then if bus.is_open then sent else (err (network (text "Failed to broadcast message")), bus)
    else skipped

unfoldable pub broadcast_over_bus :
    ProtocolMessage → Option NodeId → InMemoryNetwork → Bus → Result (Unit {0}) × Bus
broadcast_over_bus m exclude n bus =
    if n.has_bus then broadcast_to n.node_id exclude m n.connected_nodes bus else (ok tt, bus)

abbrev pub pop_message :
    InMemoryNetwork
    → List (NodeId × ProtocolMessage)
    → Result (NodeId × ProtocolMessage) × InMemoryNetwork
pop_message n [] = (err (network (text "No messages available")), n)
pop_message n (m ∷ ms) = (ok m, record n { message_queue = ms })

abbrev pub receive_in_memory : InMemoryNetwork → Result (NodeId × ProtocolMessage) × InMemoryNetwork
receive_in_memory n = pop_message n n.message_queue

-- `disconnect`; `reconnect` does nothing.
abbrev pub disconnect_in_memory : InMemoryNetwork → InMemoryNetwork
disconnect_in_memory n = record n { connected_nodes = [] }

pub record Channel : Type 0 where
  pub is_open : Bool
  pub sent : List (NodeId × ProtocolMessage)

abbrev pub put : Routed → Channel → Channel
put r c = if c.is_open then record c { sent = c.sent ++ (r.from, r.message) ∷ [] } else c

-- `InMemoryNetworkSimulator::run` over what is on the bus.
unfoldable pub run_bus : List Routed → Dict NodeId Channel → Dict NodeId Channel
run_bus [] nodes = nodes
run_bus (r ∷ rs) nodes = run_bus rs (update r.to (put r) nodes)
