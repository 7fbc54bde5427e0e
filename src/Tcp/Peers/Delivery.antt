-- ===== src/Tcp/Peers/Delivery.antt =====
-- From the queue of one node to the messages of another (rabia-engine/src/network/tcp.rs).
use mathlib.Core.List.{append_assoc, append-nil}
use rabia.Base.{
  ℕ, ◌≡◌, refl, sym, ap, ◌∙◌, true, false, ◌||◌, List, [], ◌∷◌, ◌++◌, map, Option, none, some,
  length, ◌≤◌, ==_refl,
}
use rabia.Base.Dict
use rabia.Base.Dict.{nat_key, contains_key, update, get-update, contains-insert}
use rabia.Core.Error.{Result, ok, err}
use rabia.Tcp.Frame.{max_payload, to_bytes}
use rabia.Tcp.Frame.Reading.{frame_of}
use rabia.Tcp.Handshake.{TcpStream, Greeting, perform_inbound_handshake}
use rabia.Tcp.Handshake.Agreement.{inbound-learns}
use rabia.Core.Types.{NodeId, Bytes}
use rabia.Core.Message.{ProtocolMessage}
use rabia.Tcp.Connect.{SocketAddr}
use rabia.Tcp.Stream.{reader_task, write_frames}
use rabia.Tcp.Stream.Relay.{always, sendable, reader_task-write_frames}
use rabia.Tcp.Peers.{
  ConnectionInfo, TcpNetwork, new_connection, queue, hand_on, send_to, send_over, register,
  accepted, handle_inbound_connection, is_connected,
}

-- The order in which the writer takes what is queued: the oldest first.
abbrev pub oldest_first : List ProtocolMessage → List ProtocolMessage
oldest_first [] = []
oldest_first (m ∷ ms) = oldest_first ms ++ m ∷ []

abbrev pub queue_each : List ProtocolMessage → ConnectionInfo → ConnectionInfo
queue_each [] c = c
queue_each (m ∷ ms) c = queue_each ms (queue m c)

abbrev pub hand_each : NodeId → List ProtocolMessage → TcpNetwork → TcpNetwork
hand_each k [] net = net
hand_each k (m ∷ ms) net = hand_each k ms (hand_on k m net)

abbrev pub hand_read : NodeId → Option (List ProtocolMessage) → TcpNetwork → TcpNetwork
hand_read k none net = net
hand_read k (some ms) net = hand_each k ms net

is_open-queue :
    (m : ProtocolMessage) (c : ConnectionInfo) → c.is_open ≡ true → (queue m c).is_open ≡ true
is_open-queue m c h = rw h refl

oldest_first-queue :
    (m : ProtocolMessage) (c : ConnectionInfo)
    → c.is_open ≡ true
    → oldest_first (queue m c).outbound_queue ≡ oldest_first c.outbound_queue ++ m ∷ []
oldest_first-queue m c h = rw h refl

oldest_first-queue_each :
    (ms : List ProtocolMessage) (c : ConnectionInfo)
    → c.is_open ≡ true
    → oldest_first (queue_each ms c).outbound_queue ≡ oldest_first c.outbound_queue ++ ms
oldest_first-queue_each [] c h = sym (append-nil (oldest_first c.outbound_queue))
oldest_first-queue_each (m ∷ ms) c h =
    oldest_first-queue_each ms (queue m c) (is_open-queue m c h)
    ∙ ap (λ q. q ++ ms) (oldest_first-queue m c h)
    ∙ append_assoc (oldest_first c.outbound_queue) (m ∷ []) ms

messages-hand_each :
    (k : NodeId) (ms : List ProtocolMessage) (net : TcpNetwork)
    → (hand_each k ms net).messages ≡ net.messages ++ map (λ m. (k, m)) ms
messages-hand_each k [] net = sym (append-nil net.messages)
messages-hand_each k (m ∷ ms) net =
    messages-hand_each k ms (hand_on k m net)
    ∙ append_assoc net.messages ((k, m) ∷ []) (map (λ n. (k, n)) ms)

connections-hand_each :
    (k : NodeId) (ms : List ProtocolMessage) (net : TcpNetwork)
    → (hand_each k ms net).connections ≡ net.connections
connections-hand_each k [] net = refl
connections-hand_each k (m ∷ ms) net = connections-hand_each k ms (hand_on k m net)

-- What a node sends to another, one message after the other.
abbrev pub send_each : NodeId → List ProtocolMessage → TcpNetwork → TcpNetwork
send_each k [] net = net
send_each k (m ∷ ms) net = send_each k ms (send_to k m net).1

-- What waits for the writer, in the order in which it takes it.
abbrev pub queue_of : Option ConnectionInfo → List ProtocolMessage
queue_of none = []
queue_of (some c) = oldest_first c.outbound_queue

abbrev pub waiting : NodeId → TcpNetwork → List ProtocolMessage
waiting k net = queue_of (Dict.get k net.connections)

send_over-open :
    (k : NodeId) (m : ProtocolMessage) (net : TcpNetwork) (c : ConnectionInfo)
    → c.is_open ≡ true
    → (send_over k m net (some c)).1
      ≡ record net { connections = update k (queue m) net.connections }
send_over-open k m net c o = rw o refl

get-send_to :
    (k : NodeId) (m : ProtocolMessage) (net : TcpNetwork) (c : ConnectionInfo)
    → Dict.get k net.connections ≡ some c
    → c.is_open ≡ true
    → Dict.get k (send_to k m net).1.connections ≡ some (queue m c)
unfolding send_to
get-send_to k m net c h o =
    ap (λ r. Dict.get k (send_over k m net r).1.connections) h
    ∙ ap (λ n. Dict.get k n.connections) (send_over-open k m net c o)
    ∙ get-update k k (queue m) net.connections
    ∙ simp (==_refl k, h)

get-send_each :
    (k : NodeId) (ms : List ProtocolMessage) (net : TcpNetwork) (c : ConnectionInfo)
    → Dict.get k net.connections ≡ some c
    → c.is_open ≡ true
    → Dict.get k (send_each k ms net).connections ≡ some (queue_each ms c)
get-send_each k [] net c h o = h
get-send_each k (m ∷ ms) net c h o =
    get-send_each k ms (send_to k m net).1 (queue m c) (get-send_to k m net c h o)
      (is_open-queue m c o)

waiting-send_each :
    (k : NodeId) (ms : List ProtocolMessage) (net : TcpNetwork) (c : ConnectionInfo)
    → Dict.get k net.connections ≡ some c
    → c.is_open ≡ true
    → waiting k (send_each k ms net) ≡ oldest_first c.outbound_queue ++ ms
waiting-send_each k ms net c h o =
    ap queue_of (get-send_each k ms net c h o) ∙ oldest_first-queue_each ms c o

module _ (deserialize : Bytes → Option ProtocolMessage) (serialize_id : NodeId → Option Bytes)
    (deserialize_id : Bytes → Option NodeId) where
  abbrev hand_greeted : Result Greeting → TcpNetwork → TcpNetwork
  hand_greeted (ok g) net = hand_read g.peer (reader_task deserialize always g.unread) net
  hand_greeted (err e) net = net

  -- The network after it accepted a stream and, where the handshake succeeds, its reader has read
  -- all that the stream brings. The receiver stays meanwhile.
  unfoldable pub serve_inbound : ℕ → SocketAddr → TcpStream → TcpNetwork → TcpNetwork
  serve_inbound now addr stream net =
      hand_greeted (perform_inbound_handshake serialize_id deserialize_id net.node_id stream)
        (handle_inbound_connection serialize_id deserialize_id now addr stream net).1

module _ (serialize : ProtocolMessage → Option Bytes) (deserialize : Bytes → Option ProtocolMessage)
    (reads : (m : ProtocolMessage) (b : Bytes) → serialize m ≡ some b → deserialize b ≡ some m)
    (writes : ℕ → Option ℕ) (serialize_id : NodeId → Option Bytes)
    (deserialize_id : Bytes → Option NodeId)
    (reads_id : (id : NodeId) (b : Bytes) → serialize_id id ≡ some b → deserialize_id b ≡ some id)
    (fits_id : (id : NodeId) (b : Bytes) → serialize_id id ≡ some b → length b ≤ max_payload) where
  -- A node sends messages to another with `send_to`, over a connection whose writer is there. Its
  -- writer writes what is queued behind the greeting of the handshake, and the other node accepts the
  -- stream and reads it to its end. Then the messages that were queued before and those that were
  -- sent are among the messages of the other node, behind those that were there, in the order of
  -- sending and once each, with the sender's name: all that can be encoded and are not too large, up
  -- to the first write that fails. This needs that messages and identifiers are decoded as they were
  -- encoded, identifiers that fit in a frame, a stream that the other node can write to, and a
  -- receiver that stays.
  pub serve_inbound-send_each :
      (ms : List ProtocolMessage) (a b : TcpNetwork) (c : ConnectionInfo) (now : ℕ)
      (addr : SocketAddr) (p q : Bytes)
      → serialize_id a.node_id ≡ some p
      → serialize_id b.node_id ≡ some q
      → Dict.get b.node_id a.connections ≡ some c
      → c.is_open ≡ true
      → let sent = waiting b.node_id (send_each b.node_id ms a) in
        let after =
          serve_inbound deserialize serialize_id deserialize_id now addr
            (record {
              is_writable = true;
              incoming = to_bytes (frame_of p) ++ write_frames serialize writes 0 sent;
            })
            b in
        (after.messages
          ≡ b.messages
            ++ map
                (λ m. (a.node_id, m))
                (sendable serialize writes 0 (oldest_first c.outbound_queue ++ ms)))
        × (is_connected a.node_id after ≡ true)
  unfolding serve_inbound handle_inbound_connection
  serve_inbound-send_each ms a b c now addr p q hp hq h o =
      let sent = waiting b.node_id (send_each b.node_id ms a) in
      let all = oldest_first c.outbound_queue ++ ms in
      let net = register now a.node_id addr false b in
      let greeted =
        inbound-learns serialize_id deserialize_id reads_id fits_id a.node_id b.node_id p q
          (write_frames serialize writes 0 sent) hp hq in
      let same =
        ap (λ r. hand_greeted deserialize serialize_id deserialize_id r (accepted now addr b r).1)
          greeted
        ∙ ap
            (λ w.
              hand_read a.node_id
                (reader_task deserialize always (write_frames serialize writes 0 w)) net)
            (waiting-send_each b.node_id ms a c h o)
        ∙ ap (λ r. hand_read a.node_id r net)
            (reader_task-write_frames serialize deserialize reads writes all) in
      let read = sendable serialize writes 0 all in
      (
        ap (λ n. n.messages) same ∙ messages-hand_each a.node_id read net,
        ap (λ n. is_connected a.node_id n) same
            ∙ ap (λ d. contains_key a.node_id d) (connections-hand_each a.node_id read net)
            ∙ contains-insert a.node_id a.node_id (new_connection now a.node_id addr false)
                b.connections
            ∙ ap (λ x. x || contains_key a.node_id b.connections) (==_refl a.node_id),
      )
