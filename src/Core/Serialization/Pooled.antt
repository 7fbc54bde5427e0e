-- ===== src/Core/Serialization/Pooled.antt =====
-- Serializing into a buffer of the pool (rabia-core/src/serialization.rs).
use rabia.Base.{Bool, true, false, ◌&&◌, ltb, length, ◌==◌, if◌then◌else◌, List, [], ◌∷◌, ◌++◌}
use rabia.Core.Types.{Bytes}
use rabia.Core.Error.{Result, ok, err}
use rabia.Core.Pool.{Buffer, SizeClass, small, medium, large, MemoryPool, PooledBuffer, queue}
use rabia.Core.Pool.System.{World}

-- The bytes in the buffer.
abbrev pub carried : Result PooledBuffer → Result Bytes
carried (ok p) = ok p.buffer.contents
carried (err e) = err e

abbrev pub held_with : Result PooledBuffer → List PooledBuffer → List PooledBuffer
held_with (ok p) held = p ∷ held
held_with (err e) held = held

-- The pool and its users after the call.
abbrev pub after : Result PooledBuffer × MemoryPool → World → World
after r w = record { pool = r.1; held = held_with r.0 w.held }

abbrev same_class : SizeClass → SizeClass → Bool
same_class small small = true
same_class medium medium = true
same_class large large = true
same_class _ _ = false

-- The queue of a class after a call, by what the pool and the buffer taken from it were: after an
-- error the buffer is in the queue of its class, empty, if its capacity is the one noted for it and
-- there is room.
abbrev pub queue_after : SizeClass → Result PooledBuffer → PooledBuffer → MemoryPool → List Buffer
queue_after d (ok p) taken m = queue d m
queue_after d (err e) taken m =
    if same_class d taken.class
      && taken.buffer.capacity == taken.original_capacity
      && ltb (length (queue d m)) taken.max_pool_size
    then queue d m ++ record { contents = []; capacity = taken.buffer.capacity } ∷ []
    else queue d m
