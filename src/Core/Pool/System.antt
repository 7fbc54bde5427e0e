-- ===== src/Core/Pool/System.antt =====
-- A pool of rabia-core/src/memory_pool.rs and the buffers that its users hold, in steps of any order.
use rabia.Base.{ℕ, ◌+◌, ◌≡◌, List, [], ◌∷◌, ◌++◌}
use rabia.Core.Pool.{
  Buffer, MemoryPool, PooledBuffer, new_pool, drop_buffer, clear_pool, get_buffer, warm_up,
}

pub record World : Type 0 where
  pub pool : MemoryPool
  pub held : List PooledBuffer

abbrev handing : PooledBuffer × MemoryPool → World → World
handing (p, m) w = record { pool = m; held = p ∷ w.held }

-- A user asks for a buffer, does what it likes with one that it holds, or drops one; the pool is
-- warmed up, or cleared.
pub data Step (allocate : ℕ → ℕ) (w : World) : World → Type 0 where
  asks : (n : ℕ) → Step allocate w (handing (get_buffer allocate n w.pool) w)
  changes :
      (before after : List PooledBuffer) (p : PooledBuffer) (b : Buffer)
      → w.held ≡ before ++ p ∷ after
      → Step allocate w (record w { held = before ++ record p { buffer = b } ∷ after })
  drops :
      (before after : List PooledBuffer) (p : PooledBuffer)
      → w.held ≡ before ++ p ∷ after
      → Step allocate w (record { pool = drop_buffer p w.pool; held = before ++ after })
  warms : Step allocate w (record w { pool = warm_up allocate w.pool })
  clears : Step allocate w (record w { pool = clear_pool w.pool })

abbrev pub is_warming : {allocate : ℕ → ℕ} {v w : World} → Step allocate v w → ℕ
is_warming (asks n) = 0
is_warming (changes before after p b h) = 0
is_warming (drops before after p h) = 0
is_warming warms = 1
is_warming clears = 0

-- What a new pool comes to, with the number of times that it was warmed up.
pub data Reach (allocate : ℕ → ℕ) (size : ℕ) : ℕ → World → Type 0 where
  start : Reach allocate size 0 (record { pool = new_pool size; held = [] })
  later :
      {k : ℕ} {v w : World}
      → Reach allocate size k v
      → (s : Step allocate v w) → Reach allocate size (k + is_warming s) w
