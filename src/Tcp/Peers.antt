-- ===== src/Tcp/Peers.antt =====
-- `TcpNetwork` of rabia-engine/src/network/tcp.rs: the table of connections. A connection keeps what
-- was queued for its writer, newest first, and whether the writer still takes it. Times are
-- milliseconds, read before an operation; `dials` tells what becomes of the attempts to reach a peer.
-- Locks are held for one operation, and the order of a list stands for the order of iteration.
pub mod Table
pub mod Lost
pub mod Reach
pub mod Health
pub mod Delivery
pub mod Accept
use rabia.Base.{
  ℕ, zero, suc, ◌+◌, ◌-◌, ◌*◌, Bool, true, false, not, ◌&&◌, List, [], ◌∷◌, ◌++◌, map, Option, none,
  some, ltb, ◌==◌, if◌then◌else◌,
}
use rabia.Base.Dict
use rabia.Base.Dict.{Dict, nat_key, contains_key, insert, remove, update}
use rabia.Core.Types.{NodeId, Bytes}
use rabia.Core.Error.{network, text, format, Result, ok, err}
use rabia.Core.Message.{ProtocolMessage}
use rabia.Tcp.Handshake.{TcpStream, Greeting, perform_inbound_handshake, perform_outbound_handshake}
use rabia.Tcp.Connect.{SocketAddr, RetryConfig, Dial, Retries, connect}

-- The two halves of the stream are left out.
pub record ConnectionInfo : Type 0 where
  pub node_id : NodeId
  pub addr : SocketAddr
  pub last_seen : ℕ
  pub is_open : Bool
  pub outbound_queue : List ProtocolMessage
  pub is_outbound : Bool

-- Of the configuration, what the operations read; `shutdown_signals` are those in the channel, which
-- holds one.
pub record TcpNetwork : Type 0 where
  pub node_id : NodeId
  pub peer_addresses : Dict NodeId SocketAddr
  pub keepalive_interval : ℕ
  pub retry_config : RetryConfig
  pub connections : Dict NodeId ConnectionInfo
  pub addr_to_node : Dict SocketAddr NodeId
  pub messages : List (NodeId × ProtocolMessage)
  pub shutdown_signals : ℕ

-- What `TcpNetwork::new` starts from.
abbrev pub new_network : NodeId → Dict NodeId SocketAddr → ℕ → RetryConfig → TcpNetwork
new_network id peers interval retry = record {
  node_id = id;
  peer_addresses = peers;
  keepalive_interval = interval;
  retry_config = retry;
  connections = [];
  addr_to_node = [];
  messages = [];
  shutdown_signals = 0;
}

abbrev pub new_connection : ℕ → NodeId → SocketAddr → Bool → ConnectionInfo
new_connection now peer addr outbound = record {
  node_id = peer;
  addr = addr;
  last_seen = now;
  is_open = true;
  outbound_queue = [];
  is_outbound = outbound;
}

-- A connection replaces an older one with the same peer.
abbrev pub register : ℕ → NodeId → SocketAddr → Bool → TcpNetwork → TcpNetwork
register now peer addr outbound net = record net {
  connections = insert peer (new_connection now peer addr outbound) net.connections;
  addr_to_node = insert addr peer net.addr_to_node;
}

abbrev pub accepted : ℕ → SocketAddr → TcpNetwork → Result Greeting → Result (Unit {0}) × TcpNetwork
accepted now addr net (ok g) = (ok tt, register now g.peer addr false net)
accepted now addr net (err e) = (err e, net)

abbrev pub connected :
    ℕ → NodeId → SocketAddr → TcpNetwork → Result Greeting → Result (Unit {0}) × TcpNetwork
connected now peer addr net (ok g) = (ok tt, register now peer addr true net)
connected now peer addr net (err e) = (err e, net)

module _ (serialize : NodeId → Option Bytes) (deserialize : Bytes → Option NodeId) where
  unfoldable pub handle_inbound_connection :
      ℕ → SocketAddr → TcpStream → TcpNetwork → Result (Unit {0}) × TcpNetwork
  handle_inbound_connection now addr stream net =
      accepted now addr net (perform_inbound_handshake serialize deserialize net.node_id stream)

module _ (serialize : NodeId → Option Bytes) (deserialize : Bytes → Option NodeId) (scale : ℕ → ℕ)
    (dials : NodeId → ℕ → Dial) where
  -- The outcome of the attempts to reach a peer.
  abbrev pub reach : NodeId → SocketAddr → TcpNetwork → Result Greeting
  reach peer addr net =
      (connect scale net.retry_config
        (perform_outbound_handshake serialize deserialize net.node_id peer) (dials peer)
        addr).outcome

  unfoldable pub connect_to_peer :
      ℕ → NodeId → SocketAddr → TcpNetwork → Result (Unit {0}) × TcpNetwork
  connect_to_peer now peer addr net =
      if contains_key peer net.connections
      then (ok tt, net)
      else connected now peer addr net (reach peer addr net)

  abbrev pub add_peer : ℕ → NodeId → SocketAddr → TcpNetwork → TcpNetwork
  add_peer now peer addr net =
      (connect_to_peer now peer addr
        (record net { peer_addresses = insert peer addr net.peer_addresses })).1

  abbrev pub connect_all : ℕ → Dict NodeId SocketAddr → TcpNetwork → TcpNetwork
  connect_all now [] net = net
  connect_all now ((peer, addr) ∷ peers) net =
      connect_all now peers (connect_to_peer now peer addr net).1

  unfoldable pub reconnect : ℕ → TcpNetwork → Result (Unit {0}) × TcpNetwork
  reconnect now net = (ok tt, connect_all now net.peer_addresses net)

unfoldable pub remove_peer : NodeId → TcpNetwork → TcpNetwork
remove_peer peer net = record net {
  peer_addresses = remove peer net.peer_addresses;
  connections = remove peer net.connections;
}

-- Nobody takes a signal, and the channel holds one: with `none` the call never returns. The loop
-- over the connections only writes to the log.
unfoldable pub shutdown : TcpNetwork → Option TcpNetwork
shutdown net =
    if ltb net.shutdown_signals 1
    then some (record net { shutdown_signals = net.shutdown_signals + 1 })
    else none

abbrev pub disconnect : TcpNetwork → Option TcpNetwork
disconnect net = shutdown net

-- `outbound_queue.send`, which fails when the writer is gone.
abbrev pub queue : ProtocolMessage → ConnectionInfo → ConnectionInfo
queue m c = if c.is_open then record c { outbound_queue = m ∷ c.outbound_queue } else c

abbrev pub send_over :
    NodeId → ProtocolMessage → TcpNetwork → Option ConnectionInfo → Result (Unit {0}) × TcpNetwork
send_over target m net none = (err (network (format "No connection to node {}" (target ∷ []))), net)
send_over target m net (some c) =
    if c.is_open
    then (ok tt, record net { connections = update target (queue m) net.connections })
    else (err (network (format "Failed to queue message to {}" (target ∷ []))), net)

unfoldable pub send_to : NodeId → ProtocolMessage → TcpNetwork → Result (Unit {0}) × TcpNetwork
send_to target m net = send_over target m net (Dict.get target net.connections)

abbrev pub is_target : NodeId → Option NodeId → NodeId → Bool
is_target own none k = not (k == own)
is_target own (some e) k = not (k == e) && not (k == own)

abbrev pub queue_all :
    NodeId
    → Option NodeId
    → ProtocolMessage
    → Dict NodeId ConnectionInfo
    → Dict NodeId ConnectionInfo
queue_all own exclude m [] = []
queue_all own exclude m ((k, c) ∷ d) =
    (k, if is_target own exclude k then queue m c else c) ∷ queue_all own exclude m d

-- The nodes that it fails for are written to the log.
unfoldable pub broadcast :
    ProtocolMessage → Option NodeId → TcpNetwork → Result (Unit {0}) × TcpNetwork
broadcast m exclude net =
    (ok tt, record net { connections = queue_all net.node_id exclude m net.connections })

abbrev pub take_message :
    TcpNetwork → List (NodeId × ProtocolMessage) → Option ((NodeId × ProtocolMessage) × TcpNetwork)
take_message net [] = none
take_message net (m ∷ ms) = some (m, record net { messages = ms })

-- With `none` the call waits; the channel is not closed while the network is there.
abbrev pub receive : TcpNetwork → Option ((NodeId × ProtocolMessage) × TcpNetwork)
receive net = take_message net net.messages

abbrev pub keys : {V : Type 0} → Dict NodeId V → List NodeId
keys [] = []
keys ((k, v) ∷ d) = k ∷ keys d

abbrev pub get_connected_nodes : TcpNetwork → List NodeId
get_connected_nodes net = keys net.connections

abbrev pub is_connected : NodeId → TcpNetwork → Bool
is_connected k net = contains_key k net.connections

-- The connections that a tick of the connection manager reports.
abbrev pub is_stale : ℕ → ℕ → ConnectionInfo → Bool
is_stale interval now c = ltb (interval * 2) (now - c.last_seen)

abbrev pub stale_nodes : ℕ → ℕ → Dict NodeId ConnectionInfo → List NodeId
stale_nodes interval now [] = []
stale_nodes interval now ((k, c) ∷ d) =
    let rest = stale_nodes interval now d in if is_stale interval now c then k ∷ rest else rest

-- What the tasks of a connection do: the reader hands on a message, the writer ends.
abbrev pub hand_on : NodeId → ProtocolMessage → TcpNetwork → TcpNetwork
hand_on from m net = record net { messages = net.messages ++ (from, m) ∷ [] }

abbrev pub close_writer : ConnectionInfo → ConnectionInfo
close_writer c = record c { is_open = false }

abbrev pub writer_ends : NodeId → TcpNetwork → TcpNetwork
writer_ends k net = record net { connections = update k close_writer net.connections }
