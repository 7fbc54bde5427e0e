-- ===== src/Core/Serialization/Examples.antt =====
-- The theorem on serializing into a pooled buffer at a concrete input.
use rabia.Base.{true, ℕ, ◌+◌, [], ◌∷◌, none, some}
use rabia.Core.Message.{ProtocolMessage, new, heart_beat}
use rabia.Core.Pool.{new_pool, get_buffer, drop_buffer}
use rabia.Core.Pool.System.{World}
use rabia.Core.Serialization.{Codec}

abbrev rounded : ℕ → ℕ
rounded n = n + 24

abbrev grown : ℕ → ℕ → ℕ
grown capacity n = capacity + n

-- A codec that keeps three numbers of a message.
abbrev short : Codec
short = record { encode = λ m. some (m.id ∷ m.from ∷ m.timestamp ∷ []); decode = λ b. none }

abbrev failing : Codec
failing = record { encode = λ m. none; decode = λ b. none }

abbrev pulse : ProtocolMessage
pulse =
    new 9 100 1 none
      (heart_beat (record { current_phase = 4; last_committed_phase = 3; active = true }))

-- A buffer was taken and written into, and came back.
abbrev start_world : World
start_world = record { pool = new_pool 5; held = [] }

abbrev asked : World
asked = record {
  pool = (get_buffer rounded 100 start_world.pool).1;
  held = (get_buffer rounded 100 start_world.pool).0 ∷ [];
}

abbrev used : World
used = record {
  pool = drop_buffer (get_buffer rounded 100 start_world.pool).0 asked.pool;
  held = [];
}
