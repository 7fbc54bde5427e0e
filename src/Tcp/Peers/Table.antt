-- ===== src/Tcp/Peers/Table.antt =====
-- Messages into the connections of rabia-engine/src/network/tcp.rs.
use mathlib.Core.Option
use rabia.Base.{◌≡◌, refl, [], ◌∷◌, Option, ==_iff, if◌then◌else◌, arith}
use rabia.Base.Dict
use rabia.Base.Dict.{Dict, nat_key}
use rabia.Core.Types.{NodeId}
use rabia.Core.Error.{ok}
use rabia.Core.Message.{ProtocolMessage}
use rabia.Tcp.Peers.{ConnectionInfo, TcpNetwork, queue, is_target, queue_all, broadcast}

get-queue_all :
    (own k : NodeId) (exclude : Option NodeId) (m : ProtocolMessage)
    (d : Dict NodeId ConnectionInfo)
    → Dict.get k (queue_all own exclude m d)
      ≡ Option.map (λ c. if is_target own exclude k then queue m c else c) (Dict.get k d)
get-queue_all own k exclude m [] = refl
get-queue_all own k exclude m ((j, c) ∷ d) =
    ground (arith, ==_iff k j, get-queue_all own k exclude m d)

-- A broadcast queues the message once on every connection whose writer is there, but for the excluded
-- node and the node itself; it changes no other connection, and never reports an error.
pub broadcast-queues :
    (m : ProtocolMessage) (exclude : Option NodeId) (net : TcpNetwork) (k : NodeId)
    → ((broadcast m exclude net).0 ≡ ok tt)
      × (Dict.get k (broadcast m exclude net).1.connections
          ≡ Option.map
              (λ c. if is_target net.node_id exclude k then queue m c else c)
              (Dict.get k net.connections))
unfolding broadcast
broadcast-queues m exclude net k = (refl, get-queue_all net.node_id k exclude m net.connections)
