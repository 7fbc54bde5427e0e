-- ===== src/Tcp/Handshake.antt =====
-- The handshake of rabia-engine/src/network/tcp.rs. The encoding of an identifier is a crate's. A
-- stream is what it brings before it ends, with whether a write to it succeeds.
pub mod Agreement
use rabia.Base.{ℕ, Bool, true, false, not, List, [], ◌∷◌, Option, none, some, ◌==◌}
use rabia.Core.Types.{NodeId, Bytes}
use rabia.Core.Error.{
  RabiaError, Text, network, text, format, Result, ok, err, ◌>>=◌, ◌>>◌, raise_if,
}
use rabia.Tcp.Frame.{MessageFrame, new_frame, to_bytes, from_stream}

pub record TcpStream : Type 0 where
  pub is_writable : Bool
  pub incoming : Bytes

-- The peer that was found, what was sent to it, and what the stream brings after the handshake.
pub record Greeting : Type 0 where
  pub peer : NodeId
  pub sent : Bytes
  pub unread : Bytes

abbrev pub or_network : {A : Type 0} → Text → Option A → Result A
or_network t none = err (network t)
or_network t (some a) = ok a

abbrev pub write_all : Text → TcpStream → Result (Unit {0})
write_all t s = raise_if (not s.is_writable) (network t)

module _ (serialize : NodeId → Option Bytes) (deserialize : Bytes → Option NodeId) where
  abbrev pub id_frame : NodeId → Result MessageFrame
  id_frame id = or_network (text "Failed to serialize node ID: {}") (serialize id) >>= new_frame

  unfoldable pub perform_inbound_handshake : NodeId → TcpStream → Result Greeting
  perform_inbound_handshake local_node_id stream = from_stream stream.incoming >>= λ frame.
      or_network (text "Failed to deserialize peer node ID: {}") (deserialize frame.0.payload)
      >>= λ peer. id_frame local_node_id >>= λ response.
          write_all (text "Failed to send handshake response: {}") stream
          >> ok (record { peer = peer; sent = to_bytes response; unread = frame.1 })

  unfoldable pub perform_outbound_handshake : NodeId → NodeId → TcpStream → Result Greeting
  perform_outbound_handshake local_node_id expected stream = id_frame local_node_id >>= λ hello.
      write_all (text "Failed to send handshake: {}") stream
      >> from_stream stream.incoming
      >>= λ frame.
          or_network (text "Failed to deserialize peer response: {}") (deserialize frame.0.payload)
          >>= λ peer.
              raise_if (not (peer == expected))
                (network (format "Node ID mismatch: expected {}, got {}" (expected ∷ peer ∷ [])))
              >> ok (record { peer = peer; sent = to_bytes hello; unread = frame.1 })
