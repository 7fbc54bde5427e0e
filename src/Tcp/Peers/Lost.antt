-- ===== src/Tcp/Peers/Lost.antt =====
-- Connections that are lost, in rabia-engine/src/network/tcp.rs.
use mathlib.Core.Path.{subst}
use rabia.Base.{
  ℕ, ◌≡◌, refl, sym, ap, ◌∙◌, true, false, ◌||◌, List, [], ◌∷◌, Option, none, some, ◌==◌, ==_refl,
  if_all, if◌then◌else◌,
}
use rabia.Base.Dict
use rabia.Base.Dict.{Dict, nat_key, contains_key, get-update}
use rabia.Core.Message.{ProtocolMessage}
use rabia.Core.Types.{NodeId, Bytes}
use rabia.Core.Error.{Result, ok, is_ok}
use rabia.Tcp.Connect.{SocketAddr, Dial}
use rabia.Tcp.Peers.{
  ConnectionInfo, TcpNetwork, connect_to_peer, connect_all, reconnect, send_over, send_to,
  broadcast, close_writer, writer_ends,
}
use rabia.Tcp.Peers.Health.{
  Traffic, sends, broadcasts, hands_on, ends, pass, pass_all, seen, seen-pass_all,
}

abbrev pub AllConnected : TcpNetwork → Dict NodeId SocketAddr → Type 0
AllConnected net [] = Unit
AllConnected net ((k, a) ∷ d) = (contains_key k net.connections ≡ true) × AllConnected net d

contains-seen :
    (k : NodeId) (d : Dict NodeId ConnectionInfo) → contains_key k (seen d) ≡ contains_key k d
contains-seen k [] = refl
contains-seen k ((j, c) ∷ d) = ap (λ b. k == j || b) (contains-seen k d)

module _ (net : TcpNetwork) where
  peers-send_over :
      (k : NodeId) (m : ProtocolMessage) (o : Option ConnectionInfo)
      → (send_over k m net o).1.peer_addresses ≡ net.peer_addresses
  peers-send_over k m none = refl
  peers-send_over k m (some c) =
      if_all (λ (r : Result (Unit {0}) × TcpNetwork). r.1.peer_addresses ≡ net.peer_addresses)
        c.is_open _ _ (λ _. refl) (λ _. refl)

peers-pass : (t : Traffic) (net : TcpNetwork) → (pass t net).peer_addresses ≡ net.peer_addresses
unfolding send_to broadcast
peers-pass (sends k m) net = peers-send_over net k m (Dict.get k net.connections)
peers-pass (broadcasts m exclude) net = refl
peers-pass (hands_on k m) net = refl
peers-pass (ends k) net = refl

peers-pass_all :
    (ts : List Traffic) (net : TcpNetwork) → (pass_all ts net).peer_addresses ≡ net.peer_addresses
peers-pass_all [] net = refl
peers-pass_all (t ∷ ts) net = peers-pass_all ts (pass t net) ∙ peers-pass t net

AllConnected-seen :
    (net net' : TcpNetwork) (d : Dict NodeId SocketAddr)
    → seen net'.connections ≡ seen net.connections
    → AllConnected net d
    → AllConnected net' d
AllConnected-seen net net' [] e h = tt
AllConnected-seen net net' ((k, a) ∷ d) e h = (
  sym (contains-seen k net'.connections)
      ∙ ap (contains_key k) e
      ∙ contains-seen k net.connections
      ∙ h.0,
  AllConnected-seen net net' d e h.1,
)

AllConnected-pass_all :
    (net : TcpNetwork) (ts : List Traffic)
    → AllConnected net net.peer_addresses
    → AllConnected (pass_all ts net) (pass_all ts net).peer_addresses
AllConnected-pass_all net ts h =
    subst (AllConnected (pass_all ts net)) (sym (peers-pass_all ts net))
      (AllConnected-seen net (pass_all ts net) net.peer_addresses (seen-pass_all ts net) h)

abbrev closed : Option ConnectionInfo → Option ConnectionInfo
closed o = elim o [ none ↦ none | some c ↦ some (close_writer c) ]

send_over-closed :
    (k : NodeId) (m : ProtocolMessage) (net : TcpNetwork) (o : Option ConnectionInfo)
    → is_ok (send_over k m net (closed o)).0 ≡ false
send_over-closed k m net none = refl
send_over-closed k m net (some c) = refl

send_to-writer_ends :
    (k : NodeId) (m : ProtocolMessage) (net : TcpNetwork)
    → is_ok (send_to k m (writer_ends k net)).0 ≡ false
unfolding send_to
send_to-writer_ends k m net =
    ap (λ o. is_ok (send_over k m (writer_ends k net) o).0)
      (get-update k k close_writer net.connections
        ∙ ap (λ b. if b then closed (Dict.get k net.connections) else Dict.get k net.connections)
            (==_refl k))
    ∙ send_over-closed k m (writer_ends k net) (Dict.get k net.connections)

module _ (serialize : NodeId → Option Bytes) (deserialize : Bytes → Option NodeId) (scale : ℕ → ℕ)
    (dials : NodeId → ℕ → Dial) where
  connect_to_peer-again :
      (now : ℕ) (k : NodeId) (a : SocketAddr) (net : TcpNetwork)
      → contains_key k net.connections ≡ true
      → connect_to_peer serialize deserialize scale dials now k a net ≡ (ok tt, net)
  unfolding connect_to_peer
  connect_to_peer-again now k a net h = rw h

  connect_all-again :
      (now : ℕ) (peers : Dict NodeId SocketAddr) (net : TcpNetwork)
      → AllConnected net peers
      → connect_all serialize deserialize scale dials now peers net ≡ net
  connect_all-again now [] net h = refl
  connect_all-again now ((k, a) ∷ peers) net h =
      ap (λ r. connect_all serialize deserialize scale dials now peers r.1)
        (connect_to_peer-again now k a net h.0)
      ∙ connect_all-again now peers net h.1

  reconnect-again :
      (now : ℕ) (net : TcpNetwork)
      → AllConnected net net.peer_addresses
      → reconnect serialize deserialize scale dials now net ≡ (ok tt, net)
  unfolding reconnect
  reconnect-again now net h = ap (λ n. (ok tt, n)) (connect_all-again now net.peer_addresses net h)

  -- A connection stays in the table when its writer ends. So where every known peer had an entry,
  -- `reconnect` changes nothing, whatever attempts to reach the peers would lead to, after whatever
  -- has passed over the connections and whichever writers have ended; and after the writer of a
  -- connection has ended, before or after `reconnect`, every message to its peer is an error.
  pub reconnect-lost :
      (now : ℕ) (net : TcpNetwork) (ts : List Traffic) (k : NodeId) (m : ProtocolMessage)
      → AllConnected net net.peer_addresses
      → let lost = writer_ends k (pass_all ts net) in
        let after = reconnect serialize deserialize scale dials now lost in
        (after ≡ (ok tt, lost)) × (is_ok (send_to k m after.1).0 ≡ false)
  reconnect-lost now net ts k m h =
      let lost = writer_ends k (pass_all ts net) in
      let same =
        reconnect-again now lost (
          AllConnected-pass_all (pass_all ts net) (ends k ∷ []) (AllConnected-pass_all net ts h)) in
      (same, ap (λ r. is_ok (send_to k m r.1).0) same ∙ send_to-writer_ends k m (pass_all ts net))
