-- ===== src/Tcp/Stream/Relay.antt =====
-- The writer of one node and the reader of another (rabia-engine/src/network/tcp.rs).
use mathlib.Core.Path.{subst}
use rabia.Base.{
  ℕ, zero, suc, ◌-◌, ◌≤◌, ◌<◌, ◌≡◌, refl, sym, ap, ◌∙◌, Bool, true, false, List, [], ◌∷◌, ◌++◌,
  Option, none, some, leb, ltb, min, length, arith, if◌then◌else◌, if_all, length-append,
}
use rabia.Core.Types.{Bytes}
use rabia.Core.Error.{Result, ok, err, is_ok}
use rabia.Core.Message.{ProtocolMessage}
use rabia.Tcp.Frame.{MessageFrame, max_payload, new_frame, to_bytes, from_stream}
use rabia.Tcp.Frame.Reading.{
  frame_of, new_frame-fits, from_stream-frame_of, from_stream-take, length-to_bytes,
}
use rabia.Tcp.Stream.{
  cons_read, handle_payload, handle_frame, read_frames, reader_task, put_frame, write_frame,
  write_message, write_frames,
}

abbrev pub fits : Option Bytes → Bool
fits none = false
fits (some b) = leb (length b) max_payload

abbrev pub before_failure : Option ℕ → ProtocolMessage → List ProtocolMessage → List ProtocolMessage
before_failure none m ms = m ∷ ms
before_failure (some n) m ms = []

-- The messages that can be encoded and are not too large, up to the first write that fails.
abbrev pub sendable :
    (ProtocolMessage → Option Bytes)
    → (ℕ → Option ℕ)
    → ℕ
    → List ProtocolMessage
    → List ProtocolMessage
sendable serialize writes k [] = []
sendable serialize writes k (m ∷ ms) =
    if fits (serialize m)
    then before_failure (writes k) m (sendable serialize writes (suc k) ms)
    else sendable serialize writes k ms

from_stream-empty : is_ok (from_stream []) ≡ false
unfolding from_stream
from_stream-empty = refl

abbrev pub always : ℕ → Bool
always k = true

module _ (serialize : ProtocolMessage → Option Bytes) (deserialize : Bytes → Option ProtocolMessage)
    (reads : (m : ProtocolMessage) (b : Bytes) → serialize m ≡ some b → deserialize b ≡ some m)
    (writes : ℕ → Option ℕ) where
  -- What the reader gets of some bytes, with any sufficient fuel.
  abbrev Delivers : Bytes → List ProtocolMessage → Type 0
  Delivers s ms = (fuel j : ℕ) → length s < fuel → read_frames deserialize always fuel j s ≡ some ms

  nothing-Delivers : (s : Bytes) → is_ok (from_stream s) ≡ false → Delivers s []
  unfolding read_frames
  nothing-Delivers s h zero j l = absurd (omega arith)
  nothing-Delivers s h (suc fuel) j l = go (from_stream s) h
    where
      go :
          (r : Result (MessageFrame × Bytes))
          → is_ok r ≡ false
          → handle_frame deserialize always (read_frames deserialize always fuel) j r ≡ some []
      go (err e) q = refl
      go (ok f) q = absurd (cc q)

  one-Delivers :
      (m : ProtocolMessage) (ms : List ProtocolMessage) (b rest : Bytes)
      → length b ≤ max_payload
      → deserialize b ≡ some m
      → Delivers rest ms
      → Delivers (to_bytes (frame_of b) ++ rest) (m ∷ ms)
  unfolding read_frames
  one-Delivers m ms b rest h q d zero j l = absurd (omega arith)
  one-Delivers m ms b rest h q d (suc fuel) j l =
      let go = read_frames deserialize always fuel in
      ap (handle_frame deserialize always go j) (from_stream-frame_of b rest h)
      ∙ ap (λ o. handle_payload deserialize always go j o rest) q
      ∙ ap (cons_read m) (
          d fuel (suc j)
            (omega (arith, length-append (to_bytes (frame_of b)) rest, length-to_bytes b)))

  put_frame-Delivers :
      (o : Option ℕ) (m : ProtocolMessage) (ms : List ProtocolMessage) (b rest : Bytes)
      → length b ≤ max_payload
      → deserialize b ≡ some m
      → Delivers rest ms
      → Delivers (put_frame o (to_bytes (frame_of b)) rest) (before_failure o m ms)
  put_frame-Delivers none m ms b rest h q d = one-Delivers m ms b rest h q d
  put_frame-Delivers (some n) m ms b rest h q d = nothing-Delivers _ (
      from_stream-take b (min n (length (to_bytes (frame_of b)) - 1)) h
        (ground (arith, length-to_bytes b)))

  write_message-Delivers :
      (o : Option Bytes) (k : ℕ) (m : ProtocolMessage) (ms : List ProtocolMessage)
      → serialize m ≡ o
      → ((j : ℕ) → Delivers (write_frames serialize writes j ms) (sendable serialize writes j ms))
      → Delivers (write_message serialize writes (λ j. write_frames serialize writes j ms) k o) (
          if fits o
          then before_failure (writes k) m (sendable serialize writes (suc k) ms)
          else sendable serialize writes k ms)
  write_message-Delivers none k m ms q d = d k
  write_message-Delivers (some b) k m ms q d =
      let go : ℕ → Bytes = λ j. write_frames serialize writes j ms in
      if_all (λ x. Delivers (write_frame serialize writes go k (new_frame b)) x) (fits (some b)) _ _
        (λ p.
          let small : length b ≤ max_payload = ground (arith, p) in
          subst
            (λ r.
              Delivers (write_frame serialize writes go k r)
                (before_failure (writes k) m (sendable serialize writes (suc k) ms)))
            (sym (new_frame-fits b small))
            (put_frame-Delivers (writes k) m _ b _ small (reads m b q) (d (suc k))))
        (λ p.
          if_all
            (λ r. Delivers (write_frame serialize writes go k r) (sendable serialize writes k ms))
            (ltb max_payload (length b)) _ _ (λ _. d k) (λ c. absurd (ground (arith, p, c))))

  write_frames-Delivers :
      (ms : List ProtocolMessage) (k : ℕ)
      → Delivers (write_frames serialize writes k ms) (sendable serialize writes k ms)
  write_frames-Delivers [] k = nothing-Delivers [] from_stream-empty
  write_frames-Delivers (m ∷ ms) k =
      write_message-Delivers (serialize m) k m ms refl (write_frames-Delivers ms)

  -- What the reader of one end passes on are the messages queued at the other end, in order and once
  -- each, without those that cannot be encoded or are larger than 16 MiB, up to the first write that
  -- fails; a frame of which only a part gets through is not passed on. This needs that messages are
  -- decoded as they were encoded, and a receiver that stays.
  pub reader_task-write_frames :
      (ms : List ProtocolMessage)
      → reader_task deserialize always (write_frames serialize writes 0 ms)
        ≡ some (sendable serialize writes 0 ms)
  unfolding reader_task
  reader_task-write_frames ms =
      write_frames-Delivers ms 0 (suc (length (write_frames serialize writes 0 ms))) 0 (omega arith)
