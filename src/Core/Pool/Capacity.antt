-- ===== src/Core/Pool/Capacity.antt =====
-- What the buffers of rabia-core/src/memory_pool.rs hold, how large they are, and how many wait.
use rabia.Base.{
  ℕ, zero, suc, ◌+◌, ◌*◌, ◌≤◌, ◌≡◌, refl, ◌∙◌, true, List, [], ◌∷◌, ◌++◌, ltb, ◌==◌, arith, if_all,
  length, length-append, All,
}
use mathlib.Core.Path.{subst}
use rabia.Core.Pool.{
  Buffer, SizeClass, small, medium, large, MemoryPool, PooledBuffer, queue, set_queue, class_of,
  wanted, cleared, drop_buffer, clear_pool, repeat, rest_of, get_buffer, warm_up,
}
use rabia.Core.Pool.System.{World, Step, asks, changes, drops, warms, clears, is_warming}

abbrev pub least : SizeClass → ℕ
least small = 1024
least medium = 8192
least large = 65536

-- A buffer that waits is empty and large enough for its queue.
abbrev pub IsIdle : SizeClass → Buffer → Type 0
IsIdle c b = (b.contents ≡ []) × (least c ≤ b.capacity)

-- A queue of buffers that wait, at most `n` of them.
abbrev pub IsQueue : ℕ → SizeClass → List Buffer → Type 0
IsQueue n c q = All (IsIdle c) q × (length q ≤ n)

-- A buffer that is held notes where it belongs.
abbrev pub IsHeld : ℕ → PooledBuffer → Type 0
IsHeld size p = (least p.class ≤ p.original_capacity) × (p.max_pool_size ≡ size)

pub record IsSound (size n : ℕ) (w : World) : Type 0 where
  pub size_kept : w.pool.max_pool_size ≡ size
  pub queues_good : (c : SizeClass) → IsQueue n c (queue c w.pool)
  pub held_good : All (IsHeld size) w.held

set_queue-all :
    (P : SizeClass → List Buffer → Type 0) (c : SizeClass) (q : List Buffer) (m : MemoryPool)
    → ((d : SizeClass) → P d (queue d m))
    → P c q
    → (d : SizeClass) → P d (queue d (set_queue c q m))
set_queue-all P small q m h p small = p
set_queue-all P small q m h p medium = h medium
set_queue-all P small q m h p large = h large
set_queue-all P medium q m h p small = h small
set_queue-all P medium q m h p medium = p
set_queue-all P medium q m h p large = h large
set_queue-all P large q m h p small = h small
set_queue-all P large q m h p medium = h medium
set_queue-all P large q m h p large = p

max_pool_size-set_queue :
    (c : SizeClass) (q : List Buffer) (m : MemoryPool)
    → (set_queue c q m).max_pool_size ≡ m.max_pool_size
max_pool_size-set_queue small q m = refl
max_pool_size-set_queue medium q m = refl
max_pool_size-set_queue large q m = refl

module _ {A : Type 0} (P : A → Type 0) where
  All-append : (xs ys : List A) → All P xs → All P ys → All P (xs ++ ys)
  All-append [] ys h k = k
  All-append (x ∷ xs) ys h k = (h.0, All-append xs ys h.1 k)

  All-split : (xs ys : List A) → All P (xs ++ ys) → All P xs × All P ys
  All-split [] ys h = (tt, h)
  All-split (x ∷ xs) ys h = let r = All-split xs ys h.1 in ((h.0, r.0), r.1)

  All-repeat : (n : ℕ) (a : A) → P a → All P (repeat n a)
  All-repeat zero a h = tt
  All-repeat (suc n) a h = (h, All-repeat n a h)

length-repeat : {A : Type 0} (n : ℕ) (a : A) → length (repeat n a) ≡ n
length-repeat zero a = refl
length-repeat (suc n) a = omega (arith, length-repeat n a)

rest_of-IsQueue :
    (n : ℕ) (c : SizeClass) (q : List Buffer) → IsQueue n c q → IsQueue n c (rest_of q)
rest_of-IsQueue n c [] h = h
rest_of-IsQueue n c (b ∷ q) h = (h.0.1, omega (arith, h.1))

least-wanted : (c : SizeClass) (n : ℕ) → least c ≤ wanted c n
least-wanted small n = omega arith
least-wanted medium n = omega arith
least-wanted large n = ground arith

-- A buffer goes back to its queue, if there is room for it.
returned-IsQueue :
    (n : ℕ) (p : PooledBuffer) (q : List Buffer)
    → least p.class ≤ p.buffer.capacity
    → ltb (length q) p.max_pool_size ≡ true
    → p.max_pool_size ≤ n
    → IsQueue n p.class q
    → IsQueue n p.class (q ++ cleared p.buffer ∷ [])
returned-IsQueue n p q c room h k = (
  All-append (IsIdle p.class) q (cleared p.buffer ∷ []) k.0 ((refl, c), tt),
  ground (arith, length-append q (cleared p.buffer ∷ [])),
)

drop_buffer-IsSound :
    (size n : ℕ) (p : PooledBuffer) (w : World) (rest : List PooledBuffer)
    → size ≤ n
    → IsSound size n w
    → IsHeld size p
    → All (IsHeld size) rest
    → IsSound size n (record { pool = drop_buffer p w.pool; held = rest })
unfolding drop_buffer
drop_buffer-IsSound size n p w rest l s h k =
    let same : IsSound size n (record { pool = w.pool; held = rest }) = record {
      size_kept = s.size_kept;
      queues_good = s.queues_good;
      held_good = k;
    } in
    if_all (λ m. IsSound size n (record { pool = m; held = rest }))
      (p.buffer.capacity == p.original_capacity) _ _
      (λ e.
        if_all (λ m. IsSound size n (record { pool = m; held = rest }))
          (ltb (length (queue p.class w.pool)) p.max_pool_size) _ _
          (λ room. record {
            size_kept = max_pool_size-set_queue p.class _ w.pool ∙ s.size_kept;
            queues_good = set_queue-all (IsQueue n) p.class _ w.pool s.queues_good (
                returned-IsQueue n p _ (ground (arith, h.0, e)) room (omega (arith, h.1))
                  (s.queues_good p.class));
            held_good = k;
          })
          (λ _. same))
      (λ _. same)

pop-IsSound :
    (size n : ℕ) (c : SizeClass) (p : PooledBuffer) (w : World)
    → IsSound size n w
    → IsHeld size p
    → IsSound size n
        (record { pool = set_queue c (rest_of (queue c w.pool)) w.pool; held = p ∷ w.held })
pop-IsSound size n c p w s h = record {
  size_kept = max_pool_size-set_queue c _ w.pool ∙ s.size_kept;
  queues_good =
      set_queue-all (IsQueue n) c _ w.pool s.queues_good (rest_of-IsQueue n c _ (s.queues_good c));
  held_good = (h, s.held_good);
}

IsQueue-more : (n k : ℕ) (c : SizeClass) (q : List Buffer) → IsQueue n c q → IsQueue (n + k) c q
IsQueue-more n k c q h = (h.0, omega (arith, h.1))

-- Ten more buffers.
warmed-IsQueue :
    (n : ℕ) (c : SizeClass) (b : Buffer) (q : List Buffer)
    → IsIdle c b
    → IsQueue n c q
    → IsQueue (n + 10) c (q ++ repeat 10 b)
warmed-IsQueue n c b q i h = (
  All-append (IsIdle c) q (repeat 10 b) h.0 (All-repeat (IsIdle c) 10 b i),
  omega (arith, length-append q (repeat 10 b), length-repeat 10 b, h.1),
)

middle-IsHeld :
    (size : ℕ) (before after : List PooledBuffer) (p : PooledBuffer) (held : List PooledBuffer)
    → held ≡ before ++ p ∷ after
    → All (IsHeld size) held
    → All (IsHeld size) before × IsHeld size p × All (IsHeld size) after
middle-IsHeld size before after p held e h =
    let r = All-split (IsHeld size) before (p ∷ after) (subst (All (IsHeld size)) e h) in
    (r.0, r.1.0, r.1.1)

module _ (allocate : ℕ → ℕ) (enough : (n : ℕ) → n ≤ allocate n) where
  warm_up-IsSound :
      (size n : ℕ) (w : World)
      → IsSound size n w
      → IsSound size (n + 10) (record w { pool = warm_up allocate w.pool })
  unfolding warm_up
  warm_up-IsSound size n w s = record {
    size_kept = s.size_kept;
    queues_good = go;
    held_good = s.held_good;
  }
    where
      go : (c : SizeClass) → IsQueue (n + 10) c (queue c (warm_up allocate w.pool))
      go small = warmed-IsQueue n small _ _ (refl, enough 1024) (s.queues_good small)
      go medium = warmed-IsQueue n medium _ _ (refl, enough 8192) (s.queues_good medium)
      go large = warmed-IsQueue n large _ _ (refl, enough 65536) (s.queues_good large)

  pub Step-IsSound :
      (size n : ℕ) (v w : World) (t : Step allocate v w)
      → size ≤ n
      → IsSound size n v
      → IsSound size (n + 10 * is_warming t) w
  unfolding get_buffer clear_pool
  Step-IsSound size n v w (asks k) l s =
      subst (λ m. IsSound size m w) (omega arith)
        (pop-IsSound size n (class_of k) _ v s (least-wanted (class_of k) k, s.size_kept))
  Step-IsSound size n v w (changes before after p b e) l s =
      let r = middle-IsHeld size before after p v.held e s.held_good in
      record {
        size_kept = s.size_kept;
        queues_good = λ c. IsQueue-more n 0 c _ (s.queues_good c);
        held_good = All-append (IsHeld size) before _ r.0 (r.1, r.2);
      }
  Step-IsSound size n v w (drops before after p e) l s =
      let r = middle-IsHeld size before after p v.held e s.held_good in
      subst (λ m. IsSound size m w) (omega arith)
        (drop_buffer-IsSound size n p v (before ++ after) l s r.1
          (All-append (IsHeld size) before after r.0 r.2))
  Step-IsSound size n v w warms l s = warm_up-IsSound size n v s
  Step-IsSound size n v w clears l s = record {
    size_kept = s.size_kept;
    queues_good = go;
    held_good = s.held_good;
  }
    where
      go : (c : SizeClass) → IsQueue (n + 10 * 0) c (queue c (clear_pool v.pool))
      go small = (tt, omega arith)
      go medium = (tt, omega arith)
      go large = (tt, omega arith)
