-- ===== src/Tcp/Peers/Reach.antt =====
-- Whom the network of rabia-engine/src/network/tcp.rs is connected to.
use rabia.Base.{
  ℕ, ◌≡◌, refl, sym, ap, ◌∙◌, Bool, true, ◌&&◌, ◌||◌, [], ◌∷◌, Option, none, some, ◌==◌, ==_iff,
  if_all, is_some, arith,
}
use rabia.Base.Dict.{Dict, nat_key, contains_key, contains-insert}
use rabia.Core.Types.{NodeId, Bytes}
use rabia.Core.Error.{Result, ok, err, is_ok}
use rabia.Tcp.Handshake.{Greeting, perform_outbound_handshake}
use rabia.Tcp.Connect.{SocketAddr, RetryConfig, Dial}
use rabia.Tcp.Connect.Attempts.{first_greeted, or_failed, connect-outcome}
use rabia.Tcp.Peers.{
  TcpNetwork, new_connection, connected, connect_to_peer, connect_all, reach, reconnect,
  is_connected,
}

is_ok-or_failed : (a n : ℕ) (o : Option Greeting) → is_ok (or_failed a n o) ≡ is_some o
is_ok-or_failed a n none = refl
is_ok-or_failed a n (some g) = refl

contains-connected :
    (now : ℕ) (k j : NodeId) (a : SocketAddr) (net : TcpNetwork) (r : Result Greeting)
    → is_connected j (connected now k a net r).1 ≡ is_connected j net || (j == k && is_ok r)
contains-connected now k j a net (ok g) =
    ground (arith, contains-insert k j (new_connection now k a true) net.connections)
contains-connected now k j a net (err e) = ground arith

-- What decides whom the network can reach.
abbrev SameNode : TcpNetwork → TcpNetwork → Type 0
SameNode net net' = (net'.node_id ≡ net.node_id) × (net'.retry_config ≡ net.retry_config)

connected-SameNode :
    (now : ℕ) (k : NodeId) (a : SocketAddr) (net : TcpNetwork) (r : Result Greeting)
    → SameNode net (connected now k a net r).1
connected-SameNode now k a net (ok g) = (refl, refl)
connected-SameNode now k a net (err e) = (refl, refl)

module _ (serialize : NodeId → Option Bytes) (deserialize : Bytes → Option NodeId) (scale : ℕ → ℕ)
    (dials : NodeId → ℕ → Dial) where
  -- One of the attempts to reach the peer leads to a handshake with it.
  abbrev pub is_reachable : NodeId → RetryConfig → NodeId → Bool
  is_reachable own c k = is_some (
      first_greeted (perform_outbound_handshake serialize deserialize own k) (dials k)
        c.max_attempts 0)

  is_ok-reach :
      (k : NodeId) (a : SocketAddr) (net : TcpNetwork)
      → is_ok (reach serialize deserialize scale dials k a net)
        ≡ is_reachable net.node_id net.retry_config k
  is_ok-reach k a net =
      let greet = perform_outbound_handshake serialize deserialize net.node_id k in
      ap is_ok (connect-outcome scale net.retry_config greet (dials k) a)
      ∙ is_ok-or_failed a net.retry_config.max_attempts
          (first_greeted greet (dials k) net.retry_config.max_attempts 0)

  contains-connect_to_peer :
      (now : ℕ) (k j : NodeId) (a : SocketAddr) (net : TcpNetwork)
      → is_connected j (connect_to_peer serialize deserialize scale dials now k a net).1
        ≡ is_connected j net || (j == k && is_reachable net.node_id net.retry_config k)
  unfolding connect_to_peer
  contains-connect_to_peer now k j a net =
      if_all
        (λ (r : Result (Unit {0}) × TcpNetwork).
          is_connected j r.1
          ≡ is_connected j net || (j == k && is_reachable net.node_id net.retry_config k))
        (contains_key k net.connections) _ _
        (λ q.
          let same : (j == k) ≡ true → is_connected j net ≡ true =
            λ e. ap (λ i. contains_key i net.connections) ((==_iff j k).0 e) ∙ q in
          ground (arith, same))
        (λ q.
          contains-connected now k j a net (reach serialize deserialize scale dials k a net)
          ∙ ap (λ b. is_connected j net || (j == k && b)) (is_ok-reach k a net))

  connect_to_peer-SameNode :
      (now : ℕ) (k : NodeId) (a : SocketAddr) (net : TcpNetwork)
      → SameNode net (connect_to_peer serialize deserialize scale dials now k a net).1
  unfolding connect_to_peer
  connect_to_peer-SameNode now k a net =
      if_all (λ (r : Result (Unit {0}) × TcpNetwork). SameNode net r.1)
        (contains_key k net.connections) _ _ (λ q. (refl, refl))
        (λ q. connected-SameNode now k a net (reach serialize deserialize scale dials k a net))

  contains-connect_all :
      (now : ℕ) (peers : Dict NodeId SocketAddr) (j : NodeId) (net : TcpNetwork)
      → is_connected j (connect_all serialize deserialize scale dials now peers net)
        ≡ is_connected j net
          || (contains_key j peers && is_reachable net.node_id net.retry_config j)
  contains-connect_all now [] j net = ground arith
  contains-connect_all now ((k, a) ∷ peers) j net =
      let next = (connect_to_peer serialize deserialize scale dials now k a net).1 in
      let same = connect_to_peer-SameNode now k a net in
      contains-connect_all now peers j next
      ∙ ap (λ b. is_connected j next || (contains_key j peers && b))
          (ap (λ own. is_reachable own next.retry_config j) same.0
            ∙ ap (λ c. is_reachable net.node_id c j) same.1)
      ∙ regroup k j peers net next (contains-connect_to_peer now k j a net)
    where
      regroup :
          (k j : NodeId) (peers : Dict NodeId SocketAddr) (net next : TcpNetwork)
          → is_connected j next
            ≡ is_connected j net || (j == k && is_reachable net.node_id net.retry_config k)
          → is_connected j next
              || (contains_key j peers && is_reachable net.node_id net.retry_config j)
            ≡ is_connected j net
              || ((j == k || contains_key j peers) && is_reachable net.node_id net.retry_config j)
      regroup k j peers net next h =
          let swap : (j == k) ≡ true
              → is_reachable net.node_id net.retry_config k
                ≡ is_reachable net.node_id net.retry_config j =
            λ e. ap (is_reachable net.node_id net.retry_config) (sym ((==_iff j k).0 e)) in
          ground (arith, h, swap)

  -- After `reconnect`, the nodes that count as connected are those that did before it, and the known
  -- peers with which one of the attempts, as many as are configured, leads to a handshake.
  pub contains-reconnect :
      (now : ℕ) (j : NodeId) (net : TcpNetwork)
      → is_connected j (reconnect serialize deserialize scale dials now net).1
        ≡ is_connected j net
          || (contains_key j net.peer_addresses && is_reachable net.node_id net.retry_config j)
  unfolding reconnect
  contains-reconnect now j net = contains-connect_all now net.peer_addresses j net
