-- ===== src/Tcp/Stream/Ends.antt =====
-- The reader of rabia-engine/src/network/tcp.rs comes to an end.
use rabia.Base.{
  ℕ, zero, suc, ◌<◌, ◌≡◌, refl, Bool, true, List, Option, none, some, is_some, length, arith,
  if_all,
}
use rabia.Core.Types.{Bytes}
use rabia.Core.Error.{Result, ok, err}
use rabia.Core.Message.{ProtocolMessage}
use rabia.Tcp.Frame.{MessageFrame, from_stream}
use rabia.Tcp.Frame.Reading.{from_stream-consumes}
use rabia.Tcp.Stream.{cons_read, handle_payload, handle_frame, read_frames, reader_task}

is_some-cons_read :
    (m : ProtocolMessage) (o : Option (List ProtocolMessage))
    → is_some o ≡ true
    → is_some (cons_read m o) ≡ true
is_some-cons_read m none h = h
is_some-cons_read m (some ms) h = refl

module _ (deserialize : Bytes → Option ProtocolMessage) (is_open : ℕ → Bool) where
  handle_payload-ends :
      (go : ℕ → Bytes → Option (List ProtocolMessage)) (k : ℕ) (o : Option ProtocolMessage)
      (rest : Bytes)
      → ((j : ℕ) → is_some (go j rest) ≡ true)
      → is_some (handle_payload deserialize is_open go k o rest) ≡ true
  handle_payload-ends go k none rest h = h k
  handle_payload-ends go k (some m) rest h =
      if_all (λ r. is_some r ≡ true) (is_open k) _ _ (λ _. is_some-cons_read m _ (h (suc k)))
        (λ _. refl)

  handle_frame-ends :
      (go : ℕ → Bytes → Option (List ProtocolMessage)) (k : ℕ) (s : Bytes)
      (r : Result (MessageFrame × Bytes))
      → from_stream s ≡ r
      → ((j : ℕ) (rest : Bytes) → length rest < length s → is_some (go j rest) ≡ true)
      → is_some (handle_frame deserialize is_open go k r) ≡ true
  handle_frame-ends go k s (err e) q h = refl
  handle_frame-ends go k s (ok (f, rest)) q h =
      handle_payload-ends go k (deserialize f.payload) rest
        (λ j. h j rest (from_stream-consumes s f rest q))

  read_frames-ends :
      (fuel k : ℕ) (s : Bytes)
      → length s < fuel
      → is_some (read_frames deserialize is_open fuel k s) ≡ true
  unfolding read_frames
  read_frames-ends zero k s h = absurd (omega arith)
  read_frames-ends (suc fuel) k s h =
      handle_frame-ends (read_frames deserialize is_open fuel) k s (from_stream s) refl
        (λ j rest l. read_frames-ends fuel j rest (omega arith))

  -- The reader ends on every stream that ends, whatever bytes it brings and whenever the receiver of
  -- the messages goes away: the fuel it is given, one more than there are bytes, is enough.
  pub reader_task-ends : (s : Bytes) → is_some (reader_task deserialize is_open s) ≡ true
  unfolding reader_task
  reader_task-ends s = read_frames-ends (suc (length s)) 0 s (omega arith)
