-- ===== src/Tcp/Peers/Health.antt =====
-- The periodic check of the connections in rabia-engine/src/network/tcp.rs.
use rabia.Base.{
  ℕ, ◌-◌, ◌*◌, ◌≡◌, refl, sym, ap, ◌∙◌, List, [], ◌∷◌, Option, none, some, ltb, ◌==◌, if◌then◌else◌,
  if_all,
}
use rabia.Base.Dict
use rabia.Base.Dict.{Dict, nat_key, update}
use rabia.Core.Types.{NodeId}
use rabia.Core.Error.{Result}
use rabia.Core.Message.{ProtocolMessage}
use rabia.Tcp.Peers.{
  ConnectionInfo, TcpNetwork, queue, send_over, send_to, is_target, queue_all, broadcast, hand_on,
  close_writer, writer_ends, stale_nodes, is_stale,
}

-- What passes over the connections, and the end of a writer.
pub data Traffic : Type 0 where
  sends : NodeId → ProtocolMessage → Traffic
  broadcasts : ProtocolMessage → Option NodeId → Traffic
  hands_on : NodeId → ProtocolMessage → Traffic
  ends : NodeId → Traffic

abbrev pub pass : Traffic → TcpNetwork → TcpNetwork
pass (sends k m) net = (send_to k m net).1
pass (broadcasts m exclude) net = (broadcast m exclude net).1
pass (hands_on k m) net = hand_on k m net
pass (ends k) net = writer_ends k net

abbrev pub pass_all : List Traffic → TcpNetwork → TcpNetwork
pass_all [] net = net
pass_all (t ∷ ts) net = pass_all ts (pass t net)

-- The peers, with the times of their registration.
abbrev pub seen : Dict NodeId ConnectionInfo → List (NodeId × ℕ)
seen [] = []
seen ((k, c) ∷ d) = (k, c.last_seen) ∷ seen d

queue-last_seen : (m : ProtocolMessage) (c : ConnectionInfo) → (queue m c).last_seen ≡ c.last_seen
queue-last_seen m c =
    if_all (λ (r : ConnectionInfo). r.last_seen ≡ c.last_seen) c.is_open _ _ (λ _. refl) (λ _. refl)

seen-update :
    (k : NodeId) (f : ConnectionInfo → ConnectionInfo) (d : Dict NodeId ConnectionInfo)
    → ((c : ConnectionInfo) → (f c).last_seen ≡ c.last_seen)
    → seen (update k f d) ≡ seen d
seen-update k f [] h = refl
seen-update k f ((j, c) ∷ d) h =
    if_all (λ (r : Dict NodeId ConnectionInfo). seen r ≡ seen ((j, c) ∷ d)) (k == j) _ _
      (λ _. ap (λ n. (j, n) ∷ seen d) (h c))
      (λ _. ap (λ r. (j, c.last_seen) ∷ r) (seen-update k f d h))

seen-queue_all :
    (own : NodeId) (exclude : Option NodeId) (m : ProtocolMessage) (d : Dict NodeId ConnectionInfo)
    → seen (queue_all own exclude m d) ≡ seen d
seen-queue_all own exclude m [] = refl
seen-queue_all own exclude m ((j, c) ∷ d) =
    if_all
      (λ (r : ConnectionInfo).
        (j, r.last_seen) ∷ seen (queue_all own exclude m d) ≡ seen ((j, c) ∷ d))
      (is_target own exclude j) _ _
      (λ _.
        ap (λ n. (j, n) ∷ seen (queue_all own exclude m d)) (queue-last_seen m c)
        ∙ ap (λ r. (j, c.last_seen) ∷ r) (seen-queue_all own exclude m d))
      (λ _. ap (λ r. (j, c.last_seen) ∷ r) (seen-queue_all own exclude m d))

seen-send_over :
    (k : NodeId) (m : ProtocolMessage) (net : TcpNetwork) (o : Option ConnectionInfo)
    → seen (send_over k m net o).1.connections ≡ seen net.connections
seen-send_over k m net none = refl
seen-send_over k m net (some c) =
    if_all (λ (r : Result (Unit {0}) × TcpNetwork). seen r.1.connections ≡ seen net.connections)
      c.is_open _ _ (λ _. seen-update k (queue m) net.connections (queue-last_seen m)) (λ _. refl)

seen-pass : (t : Traffic) (net : TcpNetwork) → seen (pass t net).connections ≡ seen net.connections
unfolding send_to broadcast
seen-pass (sends k m) net = seen-send_over k m net (Dict.get k net.connections)
seen-pass (broadcasts m exclude) net = seen-queue_all net.node_id exclude m net.connections
seen-pass (hands_on k m) net = refl
seen-pass (ends k) net = seen-update k close_writer net.connections (λ c. refl)

pub seen-pass_all :
    (ts : List Traffic) (net : TcpNetwork)
    → seen (pass_all ts net).connections ≡ seen net.connections
seen-pass_all [] net = refl
seen-pass_all (t ∷ ts) net = seen-pass_all ts (pass t net) ∙ seen-pass t net

abbrev stale_of : ℕ → ℕ → List (NodeId × ℕ) → List NodeId
stale_of interval now [] = []
stale_of interval now ((k, n) ∷ r) =
    let rest = stale_of interval now r in if ltb (interval * 2) (now - n) then k ∷ rest else rest

stale_nodes-seen :
    (interval now : ℕ) (d : Dict NodeId ConnectionInfo)
    → stale_nodes interval now d ≡ stale_of interval now (seen d)
stale_nodes-seen interval now [] = refl
stale_nodes-seen interval now ((k, c) ∷ d) =
    ap (λ rest. if is_stale interval now c then k ∷ rest else rest)
      (stale_nodes-seen interval now d)

-- Which connections the periodic check reports as stale does not depend on what passes over them:
-- neither a message that arrives nor one that is sent, nor the end of the writer, changes its report.
pub stale_nodes-pass_all :
    (interval now : ℕ) (ts : List Traffic) (net : TcpNetwork)
    → stale_nodes interval now (pass_all ts net).connections
      ≡ stale_nodes interval now net.connections
stale_nodes-pass_all interval now ts net =
    stale_nodes-seen interval now (pass_all ts net).connections
    ∙ ap (stale_of interval now) (seen-pass_all ts net)
    ∙ sym (stale_nodes-seen interval now net.connections)
