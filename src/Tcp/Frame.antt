-- ===== src/Tcp/Frame.antt =====
-- `MessageFrame` of rabia-engine/src/network/tcp.rs. What a stream still brings before it ends is a
-- list of bytes; a read that wants more than that fails.
pub mod Reading
use rabia.Base.{
  ℕ, zero, suc, ◌+◌, ◌-◌, ◌*◌, ◌/◌, ◌%◌, List, [], ◌∷◌, ◌++◌, Option, none, some, ltb, length, take,
  drop, if◌then◌else◌,
}
use rabia.Core.Types.{Bytes}
use rabia.Core.Error.{network, text, format, Result, ok, err}

-- `length` and `payload` of the frame.
pub record MessageFrame : Type 0 where
  pub frame_length : ℕ
  pub payload : Bytes

-- `MAX_FRAME_SIZE - 4`: 16 MiB.
abbrev pub max_payload : ℕ
max_payload = 16777216

-- `MessageFrame::new`; the length is cast to a `u32`.
abbrev pub new_frame : Bytes → Result MessageFrame
new_frame payload =
    if ltb max_payload (length payload)
    then err (network (format "Message too large: {} bytes" (length payload ∷ [])))
    else ok (record { frame_length = length payload % 4294967296; payload = payload })

-- `put_u32_le` and `read_u32_le`
abbrev pub u32_le : ℕ → Bytes
u32_le n = n % 256 ∷ n / 256 % 256 ∷ n / 65536 % 256 ∷ n / 16777216 % 256 ∷ []

abbrev pub read_u32_le : Bytes → Option (ℕ × Bytes)
read_u32_le (a ∷ b ∷ c ∷ d ∷ s) = some (a + 256 * b + 65536 * c + 16777216 * d, s)
read_u32_le _ = none

unfoldable pub to_bytes : MessageFrame → Bytes
to_bytes f = u32_le f.frame_length ++ f.payload

-- `read_exact`
abbrev pub read_exact : ℕ → Bytes → Option (Bytes × Bytes)
read_exact n s = if ltb (length s) n then none else some (take n s, drop n s)

abbrev pub with_payload : ℕ → Option (Bytes × Bytes) → Result (MessageFrame × Bytes)
with_payload n none = err (network (text "Failed to read frame payload: {}"))
with_payload n (some (p, s)) = ok (record { frame_length = n; payload = p }, s)

abbrev pub with_length : Option (ℕ × Bytes) → Result (MessageFrame × Bytes)
with_length none = err (network (text "Failed to read frame length: {}"))
with_length (some (n, s)) =
    if ltb max_payload n
    then err (network (format "Frame too large: {} bytes" (n ∷ [])))
    else with_payload n (read_exact n s)

-- `MessageFrame::from_stream`, with what the stream brings after the frame.
unfoldable pub from_stream : Bytes → Result (MessageFrame × Bytes)
from_stream s = with_length (read_u32_le s)
