-- ===== src/Core/Pool/Handed.antt =====
-- The buffers that the pool of rabia-core/src/memory_pool.rs hands out.
use rabia.Base.{
  ℕ, ◌+◌, ◌*◌, ◌≤◌, ◌<◌, ◌≡◌, refl, ap, List, [], ◌∷◌, max, arith, if_all, length, ◌==◌,
}
use mathlib.Core.Path.{subst}
use rabia.Core.Pool.{
  Buffer, SizeClass, small, medium, large, MemoryPool, PooledBuffer, new_pool, queue, class_of,
  wanted, get_buffer, drop_buffer, get_from, front_or_new, rest_of,
}
use rabia.Core.Pool.System.{World, Reach, start, later}
use rabia.Core.Pool.Capacity.{least, IsIdle, IsQueue, IsSound, Step-IsSound}

module _ (allocate : ℕ → ℕ) (enough : (n : ℕ) → n ≤ allocate n) where
  Reach-IsSound :
      (size k : ℕ) (w : World) → Reach allocate size k w → IsSound size (size + 10 * k) w
  Reach-IsSound size k w start = record { size_kept = refl; queues_good = go; held_good = tt }
    where
      go : (c : SizeClass) → IsQueue (size + 10 * 0) c (queue c (new_pool size))
      go small = (tt, omega arith)
      go medium = (tt, omega arith)
      go large = (tt, omega arith)
  Reach-IsSound size k w (later {k = j} {v = v} r t) =
      subst (λ n. IsSound size n w) (omega arith)
        (Step-IsSound allocate enough size (size + 10 * j) v w t (omega arith)
          (Reach-IsSound size j v r))

  front-IsIdle :
      (m : ℕ) (c : SizeClass) (n : ℕ) (q : List Buffer)
      → IsQueue m c q
      → IsIdle c (front_or_new allocate (wanted c n) q)
  front-IsIdle m small n [] h = (refl, enough 1024)
  front-IsIdle m medium n [] h = (refl, enough 8192)
  front-IsIdle m large n [] h = (refl, ground (arith, enough (max 65536 n)))
  front-IsIdle m c n (b ∷ q) h = h.0.0

  least_enough : (n : ℕ) → n ≤ 65536 → n ≤ least (class_of n)
  least_enough n h = ground arith

  -- However a pool of a given size and the buffers held of it have been used, and if
  -- `Vec::with_capacity` gives at least the capacity it is asked for: the next buffer that the pool
  -- hands out is empty; it has room for what was asked for, if that is at most 65536 bytes; and no
  -- queue is longer than the pool's size and 10 for each time it was warmed up.
  pub get_buffer-fits :
      (size k n : ℕ) (w : World)
      → Reach allocate size k w
      → let p = (get_buffer allocate n w.pool).0 in
        (p.buffer.contents ≡ [])
        × (n ≤ 65536 → n ≤ p.buffer.capacity)
        × ((c : SizeClass) → length (queue c w.pool) ≤ size + 10 * k)
  unfolding get_buffer
  get_buffer-fits size k n w r =
      let s = Reach-IsSound size k w r in
      let i =
        front-IsIdle (size + 10 * k) (class_of n) n (queue (class_of n) w.pool)
          (s.queues_good (class_of n)) in
      (i.0, (λ l. omega (arith, i.1, least_enough n l)), λ c. (s.queues_good c).1)

-- What is claimed of the buffer and the pool after a request.
abbrev pub FallsShort : ℕ → Buffer → List Buffer → PooledBuffer × MemoryPool → Type 0
FallsShort n b bs r =
    (r.0.buffer ≡ b)
    × (r.0.buffer.capacity < n)
    × (drop_buffer (r.0) (r.1) ≡ r.1)
    × (r.1.large_buffers ≡ bs)

module _ (allocate : ℕ → ℕ) where
  get_from-FallsShort :
      (n : ℕ) (b : Buffer) (bs : List Buffer) (m : MemoryPool)
      → m.large_buffers ≡ b ∷ bs
      → b.capacity < n
      → FallsShort n b bs (get_from allocate large n m)
  unfolding drop_buffer
  get_from-FallsShort n b bs m e c =
      let p = (get_from allocate large n m).0 in
      let rest = (get_from allocate large n m).1 in
      let same = ap (front_or_new allocate (wanted large n)) e in
      (
        same,
        omega (arith, ap (λ x. x.capacity) same),
        if_all (λ x. x ≡ rest) (p.buffer.capacity == p.original_capacity) _ _
            (λ h. absurd (ground (arith, h, ap (λ x. x.capacity) same, c))) (λ _. refl),
        ap rest_of e,
      )

  -- A request for more than 65536 bytes is served with the first of the large buffers that wait,
  -- however small that is; and a buffer smaller than the request does not go back to the pool.
  pub get_buffer-FallsShort :
      (n : ℕ) (b : Buffer) (bs : List Buffer) (m : MemoryPool)
      → 65536 < n
      → m.large_buffers ≡ b ∷ bs
      → b.capacity < n
      → FallsShort n b bs (get_buffer allocate n m)
  unfolding get_buffer
  get_buffer-FallsShort n b bs m l e c =
      let k : large ≡ class_of n = ground arith in
      subst (λ x. FallsShort n b bs (get_from allocate x n m)) k (get_from-FallsShort n b bs m e c)
