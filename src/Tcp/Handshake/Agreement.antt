-- ===== src/Tcp/Handshake/Agreement.antt =====
-- The two ends of a handshake (rabia-engine/src/network/tcp.rs).
use rabia.Base.{
  ◌≤◌, ◌≡◌, ap, ◌∙◌, refl, Bool, true, false, not, [], ◌∷◌, ◌++◌, Option, some, length, ◌==◌,
  if◌then◌else◌,
}
use rabia.Core.Types.{NodeId, Bytes}
use rabia.Core.Error.{RabiaError, network, text, format, ok, err, ◌>>=◌, ◌>>◌, raise_if}
use rabia.Tcp.Frame.{max_payload, new_frame, to_bytes}
use rabia.Tcp.Frame.Reading.{frame_of, new_frame-fits, from_stream-frame_of}
use rabia.Tcp.Handshake.{
  or_network, id_frame, perform_inbound_handshake, perform_outbound_handshake,
}

raise_if-not :
    {A : Type 0} (c : Bool) (e : RabiaError) (a : A)
    → raise_if (not c) e >> ok a ≡ (if c then ok a else err e)
raise_if-not true e a = refl
raise_if-not false e a = refl

module _ (serialize : NodeId → Option Bytes) (deserialize : Bytes → Option NodeId)
    (reads : (id : NodeId) (b : Bytes) → serialize id ≡ some b → deserialize b ≡ some id)
    (fits : (id : NodeId) (b : Bytes) → serialize id ≡ some b → length b ≤ max_payload) where
  id_frame-fits :
      (id : NodeId) (b : Bytes)
      → serialize id ≡ some b
      → id_frame serialize deserialize id ≡ ok (frame_of b)
  id_frame-fits id b h =
      ap (λ o. or_network (text "Failed to serialize node ID: {}") o >>= new_frame) h
      ∙ new_frame-fits b (fits id b h)

  -- The end that accepts: it learns who connects, whoever that wanted to reach.
  pub inbound-learns :
      (a b : NodeId) (p q rest : Bytes)
      → serialize a ≡ some p
      → serialize b ≡ some q
      → perform_inbound_handshake serialize deserialize b
          (record { is_writable = true; incoming = to_bytes (frame_of p) ++ rest })
        ≡ ok (record { peer = a; sent = to_bytes (frame_of q); unread = rest })
  unfolding perform_inbound_handshake
  inbound-learns a b p q rest hp hq =
      simp (from_stream-frame_of p rest (fits a p hp), reads a p hp, id_frame-fits b q hq)

  outbound-checks :
      (a b expected : NodeId) (p q rest : Bytes)
      → serialize a ≡ some p
      → serialize b ≡ some q
      → perform_outbound_handshake serialize deserialize a expected
          (record { is_writable = true; incoming = to_bytes (frame_of q) ++ rest })
        ≡ (if b == expected
            then ok (record { peer = b; sent = to_bytes (frame_of p); unread = rest })
            else err (network (format "Node ID mismatch: expected {}, got {}" (expected ∷ b ∷ []))))
  unfolding perform_outbound_handshake
  outbound-checks a b expected p q rest hp hq = simp (
    id_frame-fits a p hp,
    from_stream-frame_of q rest (fits b q hq),
    reads b q hq,
    raise_if-not (b == expected),
  )

  -- Both ends, over streams that can be written to: the end that accepts learns who connects, and the
  -- other compares whom it found with whom it was looking for.
  pub handshake-agrees :
      (a b expected : NodeId) (p q to_b to_a : Bytes)
      → serialize a ≡ some p
      → serialize b ≡ some q
      → (perform_inbound_handshake serialize deserialize b
            (record { is_writable = true; incoming = to_bytes (frame_of p) ++ to_b })
          ≡ ok (record { peer = a; sent = to_bytes (frame_of q); unread = to_b }))
        × (perform_outbound_handshake serialize deserialize a expected
              (record { is_writable = true; incoming = to_bytes (frame_of q) ++ to_a })
            ≡ (if b == expected
                then ok (record { peer = b; sent = to_bytes (frame_of p); unread = to_a })
                else err
                    (network (format "Node ID mismatch: expected {}, got {}" (expected ∷ b ∷ [])))))
  handshake-agrees a b expected p q to_b to_a hp hq =
      (inbound-learns a b p q to_b hp hq, outbound-checks a b expected p q to_a hp hq)
