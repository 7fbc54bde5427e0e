-- ===== src/Core/Pool.antt =====
-- rabia-core/src/memory_pool.rs: buffers that are used again. A `Vec` is its contents and its
-- capacity; `allocate` is the capacity that `Vec::with_capacity` gives. The lock of each queue is
-- held for one operation.
pub mod System
pub mod Capacity
pub mod Handed
pub mod Examples
use rabia.Base.{
  ℕ, zero, suc, ◌+◌, Bool, true, false, List, [], ◌∷◌, ◌++◌, leb, ltb, ◌==◌, max, if◌then◌else◌,
  length,
}
use rabia.Core.Types.{Bytes}

pub record Buffer : Type 0 where
  pub contents : Bytes
  pub capacity : ℕ

-- Which of its queues a buffer came from.
pub data SizeClass : Type 0 where
  small medium large : SizeClass

pub record MemoryPool : Type 0 where
  pub small_buffers : List Buffer
  pub medium_buffers : List Buffer
  pub large_buffers : List Buffer
  pub max_pool_size : ℕ

pub record PooledBuffer : Type 0 where
  pub buffer : Buffer
  pub class : SizeClass
  pub original_capacity : ℕ
  pub max_pool_size : ℕ

-- `MemoryPool::new`
abbrev pub new_pool : ℕ → MemoryPool
new_pool max_pool_size = record {
  small_buffers = [];
  medium_buffers = [];
  large_buffers = [];
  max_pool_size = max_pool_size;
}

abbrev pub queue : SizeClass → MemoryPool → List Buffer
queue small m = m.small_buffers
queue medium m = m.medium_buffers
queue large m = m.large_buffers

abbrev pub set_queue : SizeClass → List Buffer → MemoryPool → MemoryPool
set_queue small q m = record m { small_buffers = q }
set_queue medium q m = record m { medium_buffers = q }
set_queue large q m = record m { large_buffers = q }

-- The branch of `get_buffer`, and the capacity that it asks for and notes.
abbrev pub class_of : ℕ → SizeClass
class_of min_size = if leb min_size 1024 then small else if leb min_size 8192 then medium else large

abbrev pub wanted : SizeClass → ℕ → ℕ
wanted small min_size = 1024
wanted medium min_size = 8192
wanted large min_size = max 65536 min_size

-- Cleared, with the capacity that it has.
abbrev pub cleared : Buffer → Buffer
cleared b = record b { contents = [] }

-- `Drop`: only a buffer of its first capacity goes back, and only if there is room.
unfoldable pub drop_buffer : PooledBuffer → MemoryPool → MemoryPool
drop_buffer p m =
    if p.buffer.capacity == p.original_capacity
    then if ltb (length (queue p.class m)) p.max_pool_size
      then set_queue p.class (queue p.class m ++ cleared p.buffer ∷ []) m
      else m
    else m

-- `take_bytes` leaves an empty `Vec` behind.
abbrev pub take_bytes : PooledBuffer → Bytes × PooledBuffer
take_bytes p = (p.buffer.contents, record p { buffer = record { contents = []; capacity = 0 } })

unfoldable pub clear_pool : MemoryPool → MemoryPool
clear_pool m = record m { small_buffers = []; medium_buffers = []; large_buffers = [] }

pub record PoolStats : Type 0 where
  pub small_buffers_available : ℕ
  pub medium_buffers_available : ℕ
  pub large_buffers_available : ℕ

-- `stats`
unfoldable pub pool_stats : MemoryPool → PoolStats
pool_stats m = record {
  small_buffers_available = length m.small_buffers;
  medium_buffers_available = length m.medium_buffers;
  large_buffers_available = length m.large_buffers;
}

abbrev pub repeat : {A : Type 0} → ℕ → A → List A
repeat zero a = []
repeat (suc n) a = a ∷ repeat n a

abbrev pub rest_of : List Buffer → List Buffer
rest_of [] = []
rest_of (b ∷ bs) = bs

module _ (allocate : ℕ → ℕ) where
  -- `Vec::with_capacity`
  abbrev pub with_capacity : ℕ → Buffer
  with_capacity n = record { contents = []; capacity = allocate n }

  -- `pop_front`, or a new buffer.
  abbrev pub front_or_new : ℕ → List Buffer → Buffer
  front_or_new n [] = with_capacity n
  front_or_new n (b ∷ bs) = b

  abbrev pub get_from : SizeClass → ℕ → MemoryPool → PooledBuffer × MemoryPool
  get_from c min_size m = (
    record {
      buffer = front_or_new (wanted c min_size) (queue c m);
      class = c;
      original_capacity = wanted c min_size;
      max_pool_size = m.max_pool_size;
    },
    set_queue c (rest_of (queue c m)) m,
  )

  unfoldable pub get_buffer : ℕ → MemoryPool → PooledBuffer × MemoryPool
  get_buffer min_size m = get_from (class_of min_size) min_size m

  unfoldable pub warm_up : MemoryPool → MemoryPool
  warm_up m = record m {
    small_buffers = m.small_buffers ++ repeat 10 (with_capacity 1024);
    medium_buffers = m.medium_buffers ++ repeat 10 (with_capacity 8192);
    large_buffers = m.large_buffers ++ repeat 10 (with_capacity 65536);
  }
