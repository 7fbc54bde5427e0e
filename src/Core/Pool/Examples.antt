-- ===== src/Core/Pool/Examples.antt =====
-- The theorems on the pool of buffers at concrete inputs.
use rabia.Base.{ℕ, ◌+◌, ◌*◌, ◌≤◌, ◌≡◌, [], ◌∷◌, arith, length}
use rabia.Core.Pool.{Buffer, SizeClass, MemoryPool, new_pool, queue, get_buffer, warm_up}
use rabia.Core.Pool.System.{World, asks, warms, Reach, start, later}
use rabia.Core.Pool.Handed.{get_buffer-fits}

-- An allocator that rounds up.
abbrev rounded : ℕ → ℕ
rounded n = n + 24

rounded_enough : (n : ℕ) → n ≤ rounded n
rounded_enough n = omega arith

abbrev warm : World
warm = record { pool = warm_up rounded (new_pool 5); held = [] }

abbrev asked : World
asked = record {
  pool = (get_buffer rounded 100 warm.pool).1;
  held = (get_buffer rounded 100 warm.pool).0 ∷ [];
}

asked-Reach : Reach rounded 5 1 asked
asked-Reach = later (later start warms) (asks 100)

get_buffer-fits_example :
    let p = (get_buffer rounded 9000 asked.pool).0 in
    (p.buffer.contents ≡ [])
    × (9000 ≤ 65536 → 9000 ≤ p.buffer.capacity)
    × ((c : SizeClass) → length (queue c asked.pool) ≤ 5 + 10 * 1)
get_buffer-fits_example = get_buffer-fits rounded rounded_enough 5 1 9000 asked asked-Reach

abbrev a_large : Buffer
a_large = record { contents = []; capacity = 65560 }

abbrev one_large : MemoryPool
one_large = record (new_pool 5) { large_buffers = a_large ∷ [] }
