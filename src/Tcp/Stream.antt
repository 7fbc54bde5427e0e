-- ===== src/Tcp/Stream.antt =====
-- The tasks of `run_connection_handler` in rabia-engine/src/network/tcp.rs. The encoding of messages
-- is a crate's, and so is the stream: `writes` tells of the k-th write whether it succeeds, or how
-- many bytes it got rid of before it failed, which is less than all; `is_open` tells whether the
-- receiver of the messages is there at the k-th.
pub mod Relay
pub mod Ends
use rabia.Base.{
  ℕ, zero, suc, ◌+◌, ◌-◌, Bool, true, false, List, [], ◌∷◌, ◌++◌, Option, none, some, min, length,
  take, if◌then◌else◌,
}
use rabia.Core.Types.{Bytes}
use rabia.Core.Error.{Result, ok, err}
use rabia.Core.Message.{ProtocolMessage}
use rabia.Tcp.Frame.{MessageFrame, new_frame, to_bytes, from_stream}

-- What is read so far, before the rest; `none` if the loop has run out of fuel.
abbrev pub cons_read :
    ProtocolMessage → Option (List ProtocolMessage) → Option (List ProtocolMessage)
cons_read m none = none
cons_read m (some ms) = some (m ∷ ms)

module _ (deserialize : Bytes → Option ProtocolMessage) (is_open : ℕ → Bool) where
  -- A message that cannot be read is skipped; the loop ends when nobody takes a message.
  abbrev pub handle_payload :
      (ℕ → Bytes → Option (List ProtocolMessage))
      → ℕ
      → Option ProtocolMessage
      → Bytes
      → Option (List ProtocolMessage)
  handle_payload go k none rest = go k rest
  handle_payload go k (some m) rest = if is_open k then cons_read m (go (suc k) rest) else some []

  abbrev pub handle_frame :
      (ℕ → Bytes → Option (List ProtocolMessage))
      → ℕ
      → Result (MessageFrame × Bytes)
      → Option (List ProtocolMessage)
  handle_frame go k (err e) = some []
  handle_frame go k (ok (f, rest)) = handle_payload go k (deserialize f.payload) rest

  -- The loop of the reader, on fuel.
  unfoldable pub read_frames : ℕ → ℕ → Bytes → Option (List ProtocolMessage)
  read_frames zero k s = none
  read_frames (suc fuel) k s = handle_frame (read_frames fuel) k (from_stream s)

  -- The messages that the reader task passes on. A frame takes some bytes of the stream, so there
  -- are fewer rounds than bytes.
  unfoldable pub reader_task : Bytes → Option (List ProtocolMessage)
  reader_task s = read_frames (suc (length s)) 0 s

-- The bytes that get out, and those of the rest if the write succeeds.
abbrev pub put_frame : Option ℕ → Bytes → Bytes → Bytes
put_frame none frame rest = frame ++ rest
put_frame (some n) frame rest = take (min n (length frame - 1)) frame

module _ (serialize : ProtocolMessage → Option Bytes) (writes : ℕ → Option ℕ) where
  abbrev pub write_frame : (ℕ → Bytes) → ℕ → Result MessageFrame → Bytes
  write_frame go k (err e) = go k
  write_frame go k (ok f) = put_frame (writes k) (to_bytes f) (go (suc k))

  abbrev pub write_message : (ℕ → Bytes) → ℕ → Option Bytes → Bytes
  write_message go k none = go k
  write_message go k (some b) = write_frame go k (new_frame b)

  -- The loop of the writer over the messages that are queued.
  abbrev pub write_frames : ℕ → List ProtocolMessage → Bytes
  write_frames k [] = []
  write_frames k (m ∷ ms) = write_message (λ j. write_frames j ms) k (serialize m)
