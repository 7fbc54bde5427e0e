-- ===== src/Testing/Simulated/Actions.antt =====
-- A broadcast over the network of rabia-testing/src/network_sim.rs.
use rabia.Base.{
  ℕ, suc, ◌+◌, ◌≡◌, refl, Bool, true, false, List, [], ◌∷◌, Option, if◌then◌else◌, if_all, length,
  filter_b, arith,
}
use rabia.Base.NodeSet.{NodeSet}
use rabia.Core.Types.{NodeId}
use rabia.Core.Message.{ProtocolMessage}
use rabia.Testing.Simulator.{
  NetworkSimulator, Draw, NetworkAction, send, act_all, are_nodes_partitioned, send_message,
}
use rabia.Testing.Simulator.Accounts.{Accounts, act_all-Accounts}
use rabia.Testing.Simulated.{SimulatedNetwork, is_peer, send_to_peers, broadcast_simulated}

-- One message to each of some nodes.
abbrev sends : ℕ → (ℕ → Draw) → NodeId → ProtocolMessage → ℕ → List NodeId → List NetworkAction
sends now draws own m i [] = []
sends now draws own m i (k ∷ ks) = send now (draws i) own k m ∷ sends now draws own m (suc i) ks

-- A test that chooses a state, and the actions that lead there.
either :
    (b : Bool) (x y s : NetworkSimulator) (f : List NodeId → List NetworkAction) (k : NodeId)
    (ks : List NodeId)
    → x ≡ act_all (f (k ∷ ks)) s
    → y ≡ act_all (f ks) s
    → (if b then x else y) ≡ act_all (f (if b then k ∷ ks else ks)) s
either true x y s f k ks p q = p
either false x y s f k ks p q = q

send_to_peers-sends :
    (now : ℕ) (draws : ℕ → Draw) (own : NodeId) (exclude : Option NodeId) (m : ProtocolMessage)
    (i : ℕ) (ks : NodeSet) (s : NetworkSimulator)
    → send_to_peers now draws own exclude m i ks s
      ≡ act_all (sends now draws own m i (filter_b (is_peer own exclude) ks)) s
send_to_peers-sends now draws own exclude m i [] s = refl
send_to_peers-sends now draws own exclude m i (k ∷ ks) s =
    either (is_peer own exclude k)
      (send_to_peers now draws own exclude m (suc i) ks (send_message now (draws i) own k m s))
      (send_to_peers now draws own exclude m i ks s) s (sends now draws own m i) k
      (filter_b (is_peer own exclude) ks)
      (send_to_peers-sends now draws own exclude m (suc i) ks
        (send_message now (draws i) own k m s))
      (send_to_peers-sends now draws own exclude m i ks s)

messages_sent-send_message :
    (now : ℕ) (draw : Draw) (from to : NodeId) (m : ProtocolMessage) (s : NetworkSimulator)
    → (send_message now draw from to m s).message_stats.messages_sent
      ≡ s.message_stats.messages_sent + 1
unfolding send_message
messages_sent-send_message now draw from to m s =
    if_all
      (λ (r : NetworkSimulator). r.message_stats.messages_sent ≡ s.message_stats.messages_sent + 1)
      (are_nodes_partitioned now from to s.partitions) _ _ (λ _. refl)
      (λ _.
        if_all
          (λ (r : NetworkSimulator).
            r.message_stats.messages_sent ≡ s.message_stats.messages_sent + 1)
          draw.is_lost _ _ (λ _. refl) (λ _. refl))

messages_sent-sends :
    (now : ℕ) (draws : ℕ → Draw) (own : NodeId) (m : ProtocolMessage) (i : ℕ) (ks : List NodeId)
    (s : NetworkSimulator)
    → (act_all (sends now draws own m i ks) s).message_stats.messages_sent
      ≡ s.message_stats.messages_sent + length ks
messages_sent-sends now draws own m i [] s = omega arith
messages_sent-sends now draws own m i (k ∷ ks) s = omega (
  arith,
  messages_sent-sends now draws own m (suc i) ks (send_message now (draws i) own k m s),
  messages_sent-send_message now (draws i) own k m s,
)

-- A broadcast sends one message to each of the connected nodes other than the excluded one and the
-- sender, and keeps the accounts of the network: those delivered, dropped and on their way are not
-- more than those sent.
pub broadcast_simulated-Accounts :
    (now : ℕ) (draws : ℕ → Draw) (m : ProtocolMessage) (exclude : Option NodeId)
    (n : SimulatedNetwork) (s : NetworkSimulator)
    → Accounts s
    → let t = broadcast_simulated now draws m exclude n s in
      Accounts t
      × (t.message_stats.messages_sent
          ≡ s.message_stats.messages_sent
            + length (filter_b (is_peer n.node_id exclude) n.connected_nodes))
unfolding broadcast_simulated
broadcast_simulated-Accounts now draws m exclude n s h =
    let peers = filter_b (is_peer n.node_id exclude) n.connected_nodes in
    let same = send_to_peers-sends now draws n.node_id exclude m 0 n.connected_nodes s in
    rw same (
      act_all-Accounts (sends now draws n.node_id m 0 peers) s h,
      messages_sent-sends now draws n.node_id m 0 peers s,
    )
