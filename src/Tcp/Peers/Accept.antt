-- ===== src/Tcp/Peers/Accept.antt =====
-- Both ends of a connection, from the handshake (rabia-engine/src/network/tcp.rs).
use rabia.Base.{
  ℕ, ◌≤◌, ◌≡◌, refl, ap, ◌∙◌, Bool, true, false, ◌||◌, [], ◌∷◌, ◌++◌, Option, some, length, ◌==◌,
  ==_refl, if◌then◌else◌, arith,
}
use rabia.Base.Dict
use rabia.Base.Dict.{nat_key, contains_key, get-insert, contains-insert}
use rabia.Core.Types.{NodeId, Bytes}
use rabia.Core.Error.{RabiaError, network, format, ok, err}
use rabia.Tcp.Frame.{max_payload, to_bytes}
use rabia.Tcp.Frame.Reading.{frame_of}
use rabia.Tcp.Handshake.{Greeting, perform_outbound_handshake}
use rabia.Tcp.Handshake.Agreement.{handshake-agrees}
use rabia.Tcp.Connect.{SocketAddr}
use rabia.Tcp.Peers.{
  TcpNetwork, new_connection, register, accepted, connected, handle_inbound_connection,
  is_connected,
}

module _ (now : ℕ) (k : NodeId) (addr : SocketAddr) (net : TcpNetwork) where
  -- What `connected` gives when the handshake ends in `g` or, where `c` is false, in `e`.
  result-connected :
      (c : Bool) (g : Greeting) (e : RabiaError)
      → (connected now k addr net (if c then ok g else err e)).0 ≡ (if c then ok tt else err e)
  result-connected true g e = refl
  result-connected false g e = refl

  contains-connected :
      (c : Bool) (g : Greeting) (e : RabiaError)
      → is_connected k (connected now k addr net (if c then ok g else err e)).1
        ≡ is_connected k net || c
  contains-connected true g e =
      contains-insert k k (new_connection now k addr true) net.connections
      ∙ ground (arith, ==_refl k)
  contains-connected false g e = ground arith

  get-register :
      Dict.get k (register now k addr false net).connections
      ≡ some (new_connection now k addr false)
  get-register =
      get-insert k k (new_connection now k addr false) net.connections ∙ ground (arith, ==_refl k)

module _ (serialize : NodeId → Option Bytes) (deserialize : Bytes → Option NodeId)
    (reads : (id : NodeId) (b : Bytes) → serialize id ≡ some b → deserialize b ≡ some id)
    (fits : (id : NodeId) (b : Bytes) → serialize id ≡ some b → length b ≤ max_payload) where
  -- Two nodes connect, and a write to either stream succeeds. The node that accepts learns who
  -- connects to it and keeps a connection with it as an open one with an empty queue, also when the
  -- node that connects was looking for another. That one keeps a connection with the node it was
  -- looking for, if it had none, exactly when that is the node that it found; else it has an error
  -- that names both. This needs that identifiers are decoded as they were encoded, and fit in a frame.
  pub accept-agrees :
      (a b : TcpNetwork) (now_a now_b : ℕ) (addr_a addr_b : SocketAddr) (expected : NodeId)
      (p q to_b to_a : Bytes)
      → serialize a.node_id ≡ some p
      → serialize b.node_id ≡ some q
      → let accepts =
          handle_inbound_connection serialize deserialize now_b addr_a
            (record { is_writable = true; incoming = to_bytes (frame_of p) ++ to_b })
            b in
        let connects = connected now_a expected addr_b a (
          perform_outbound_handshake serialize deserialize a.node_id expected
            (record { is_writable = true; incoming = to_bytes (frame_of q) ++ to_a })) in
        (accepts.0 ≡ ok tt)
        × (Dict.get a.node_id accepts.1.connections
            ≡ some (record {
              node_id = a.node_id;
              addr = addr_a;
              last_seen = now_b;
              is_open = true;
              outbound_queue = [];
              is_outbound = false;
            }))
        × (connects.0 ≡ (
            if b.node_id == expected
            then ok tt
            else err (
                network
                  (format "Node ID mismatch: expected {}, got {}" (expected ∷ b.node_id ∷ [])))))
        × (is_connected expected connects.1 ≡ is_connected expected a || b.node_id == expected)
  unfolding handle_inbound_connection
  accept-agrees a b now_a now_b addr_a addr_b expected p q to_b to_a hp hq =
      let both =
        handshake-agrees serialize deserialize reads fits a.node_id b.node_id expected p q to_b to_a
          hp hq in
      let here = ap (accepted now_b addr_a b) both.0 in
      let there = ap (connected now_a expected addr_b a) both.1 in
      (
        ap (λ r. r.0) here,
        ap (λ r. Dict.get a.node_id r.1.connections) here ∙ get-register now_b a.node_id addr_a b,
        ap (λ r. r.0) there ∙ result-connected now_a expected addr_b a (b.node_id == expected) _ _,
        ap (λ r. is_connected expected r.1) there
            ∙ contains-connected now_a expected addr_b a (b.node_id == expected) _ _,
      )
