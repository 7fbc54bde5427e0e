-- ===== src/Core/Batching/Size.antt =====
-- The sizes of the batches and of the buffer of rabia-core/src/batching.rs.
use mathlib.Core.Path.{subst}
use rabia.Base.{
  ℕ, ◌+◌, ◌-◌, ◌≤◌, ◌<◌, ◌≡◌, refl, sym, not, ◌&&◌, Option, none, some, List, [], ◌∷◌, leb, arith,
  if_all, length, is_empty, is_empty-eq, length-take, length-drop, length-append,
}
use rabia.Core.Types.{Command}
use rabia.Core.Batching.{
  BatchConfig, CommandBatcher, AddResult, Request, arrive, force_flush, reconfigure,
  current_batch_size, push_back, count_timeout, flush_batch, flush_if_due, add_command, flush,
  serve, serve_all, cons_some, batch_of, adjust_adaptive_batch_size, update_batch_config,
  new_batcher, next_size, flushed,
}

-- The adaptive size is the configured one, no adjustment has been counted, and there are at most
-- `n` time-outs more than batches.
abbrev IsSteadyUpTo : ℕ → CommandBatcher → Type 0
IsSteadyUpTo n b =
    (b.adaptive_batch_size ≡ b.config.max_batch_size)
    × (b.stats.adaptive_adjustments ≡ 0)
    × (b.stats.flush_timeouts ≤ b.stats.total_batches + n)

abbrev pub IsSteady : CommandBatcher → Type 0
IsSteady b = IsSteadyUpTo 0 b

adjust-same :
    (b : CommandBatcher) → IsSteady b → 0 < b.stats.total_batches → adjust_adaptive_batch_size b ≡ b
unfolding adjust_adaptive_batch_size
adjust-same b h p = ground arith

pub flush_batch-flushed :
    (now : ℕ) (b : CommandBatcher) → IsSteadyUpTo 1 b → (flush_batch now b).1 ≡ flushed now b
unfolding flush_batch
flush_batch-flushed now b h =
    if_all (λ c. c ≡ flushed now b) b.config.adaptive _ _
      (λ p. adjust-same (flushed now b) (h.0, h.1, omega (arith, h.2)) (omega arith)) (λ p. refl)

-- Between two calls, with the configuration as it is: fewer commands wait than make up a batch, and
-- no more than there is room for.
abbrev pub IsCalm : BatchConfig → CommandBatcher → Type 0
IsCalm c b =
    (b.config ≡ c)
    × IsSteady b
    × (length b.buffer < c.max_batch_size)
    × (length b.buffer ≤ c.buffer_capacity)

abbrev pub IsBatchOf : BatchConfig → List Command → Type 0
IsBatchOf c xs = (0 < length xs) × (length xs ≤ c.max_batch_size)

abbrev pub IsHanded : BatchConfig → Option (List Command) → Type 0
IsHanded c none = Unit
IsHanded c (some xs) = IsBatchOf c xs

abbrev Fits : BatchConfig → Option (List Command) × CommandBatcher → Type 0
Fits c r = IsHanded c (r.0) × IsCalm c (r.1)

flush_batch-Fits :
    (now : ℕ) (b : CommandBatcher)
    → IsSteadyUpTo 1 b
    → 0 < length b.buffer
    → length b.buffer ≤ b.config.max_batch_size
    → Fits b.config (some (flush_batch now b).0, (flush_batch now b).1)
unfolding flush_batch
flush_batch-Fits now b h p q = (
  ground (arith, length-take (next_size b) b.buffer, h.0),
  subst (λ c. IsCalm b.config c) (sym (flush_batch-flushed now b h))
      (
        refl,
        (h.0, h.1, omega (arith, h.2)),
        ground (arith, length-drop (next_size b) b.buffer, h.0),
        ground (arith, length-drop (next_size b) b.buffer, h.0),
      ),
)

-- After a command has been added, there are at most as many as make up a batch.
flush_if_due-Fits :
    (now : ℕ) (b : CommandBatcher)
    → IsSteady b
    → 0 < length b.buffer
    → length b.buffer ≤ b.config.max_batch_size
    → length b.buffer ≤ b.config.buffer_capacity
    → Fits b.config (batch_of (flush_if_due now b).0, (flush_if_due now b).1)
unfolding flush_if_due
flush_if_due-Fits now b h p q c =
    if_all (λ (r : AddResult × CommandBatcher). Fits b.config (batch_of r.0, r.1))
      (leb (current_batch_size b) (length b.buffer)) _ _
      (λ _. flush_batch-Fits now b (h.0, h.1, omega (arith, h.2)) p q)
      (λ x.
        if_all (λ (r : AddResult × CommandBatcher). Fits b.config (batch_of r.0, r.1))
          (leb b.config.max_batch_delay (now - b.last_flush) && not (is_empty b.buffer)) _ _
          (λ _. flush_batch-Fits now (count_timeout b) (h.0, h.1, omega (arith, h.2)) p q)
          (λ _. (tt, (refl, h, ground (arith, x, h.0), c))))

add_command-Fits :
    (now : ℕ) (x : Command) (b : CommandBatcher)
    → IsCalm b.config b
    → Fits b.config (batch_of (add_command now x b).0, (add_command now x b).1)
unfolding add_command
add_command-Fits now x b h =
    if_all (λ (r : AddResult × CommandBatcher). Fits b.config (batch_of r.0, r.1))
      (leb b.config.buffer_capacity (length b.buffer)) _ _ (λ _. (tt, (refl, h.1, h.2, h.3)))
      (λ p.
        let l = length-append b.buffer (x ∷ []) in
        flush_if_due-Fits now (push_back x b) h.1 (omega (arith, l)) (omega (arith, l, h.2))
          (ground (arith, l, p)))

flush-Fits : (now : ℕ) (b : CommandBatcher) → IsCalm b.config b → Fits b.config (flush now b)
unfolding flush
flush-Fits now b h =
    if_all (λ r. Fits b.config r) (is_empty b.buffer) _ _ (λ _. (tt, h))
      (λ p.
        flush_batch-Fits now b (h.1.0, h.1.1, omega (arith, h.1.2))
          (ground (arith, p, is_empty-eq b.buffer)) (omega (arith, h.2)))

-- The configuration stays.
abbrev pub KeepsConfig : List Request → Type 0
KeepsConfig [] = Unit
KeepsConfig (arrive now x ∷ rs) = KeepsConfig rs
KeepsConfig (force_flush now ∷ rs) = KeepsConfig rs
KeepsConfig (reconfigure c ∷ rs) = ⊥

abbrev pub AllBatches : BatchConfig → List (List Command) → Type 0
AllBatches c [] = Unit
AllBatches c (xs ∷ xss) = IsBatchOf c xs × AllBatches c xss

cons_some-AllBatches :
    (c : BatchConfig) (o : Option (List Command)) (bs : List (List Command))
    → IsHanded c o
    → AllBatches c bs
    → AllBatches c (cons_some o bs)
cons_some-AllBatches c none bs h k = k
cons_some-AllBatches c (some xs) bs h k = (h, k)

serve-Fits :
    (r : Request) (b : CommandBatcher)
    → KeepsConfig (r ∷ [])
    → IsCalm b.config b
    → Fits b.config ((serve r b).1, (serve r b).2)
serve-Fits (arrive now x) b k h = add_command-Fits now x b h
serve-Fits (force_flush now) b k h = flush-Fits now b h
serve-Fits (reconfigure c) b k h = absurd k

first-KeepsConfig :
    (r : Request) (rs : List Request) → KeepsConfig (r ∷ rs) → KeepsConfig (r ∷ []) × KeepsConfig rs
first-KeepsConfig (arrive now x) rs k = (tt, k)
first-KeepsConfig (force_flush now) rs k = (tt, k)
first-KeepsConfig (reconfigure c) rs k = absurd k

-- While the configuration stays, and less than a batch waits at first: every batch handed out has
-- at least one command and at most the configured number; and after all calls again less than a
-- batch waits, and no more than the capacity of the buffer.
pub serve_all-IsCalm :
    (c : BatchConfig) (rs : List Request) (b : CommandBatcher)
    → KeepsConfig rs
    → IsCalm c b
    → AllBatches c ((serve_all rs b).1) × IsCalm c ((serve_all rs b).2)
serve_all-IsCalm c [] b k h = (tt, h)
serve_all-IsCalm c (r ∷ rs) b k h =
    let (cs, o, t) = serve r b in
    let keep = first-KeepsConfig r rs k in
    let one =
      subst (λ x. Fits x (o, t)) h.0
        (serve-Fits r b keep.0 (subst (λ x. IsCalm x b) (sym h.0) h)) in
    let rest = serve_all-IsCalm c rs t keep.1 one.1 in
    (cons_some-AllBatches c o (serve_all rs t).1 one.0 rest.0, rest.1)

flush_batch-IsSteady :
    (now : ℕ) (b : CommandBatcher) → IsSteadyUpTo 1 b → IsSteady (flush_batch now b).1
flush_batch-IsSteady now b h =
    subst IsSteady (sym (flush_batch-flushed now b h)) (h.0, h.1, omega (arith, h.2))

serve-IsSteady : (r : Request) (b : CommandBatcher) → IsSteady b → IsSteady (serve r b).2
unfolding add_command flush_if_due flush update_batch_config
serve-IsSteady (arrive now x) b h =
    if_all (λ (r : AddResult × CommandBatcher). IsSteady r.1)
      (leb b.config.buffer_capacity (length b.buffer)) _ _ (λ _. h)
      (λ _.
        if_all (λ (r : AddResult × CommandBatcher). IsSteady r.1)
          (leb (current_batch_size b) (length (push_back x b).buffer)) _ _
          (λ _. flush_batch-IsSteady now (push_back x b) (h.0, h.1, omega (arith, h.2)))
          (λ _.
            if_all (λ (r : AddResult × CommandBatcher). IsSteady r.1)
              (leb b.config.max_batch_delay (now - b.last_flush)
                && not (is_empty (push_back x b).buffer))
              _ _
              (λ _.
                flush_batch-IsSteady now (count_timeout (push_back x b))
                  (h.0, h.1, omega (arith, h.2)))
              (λ _. h)))
serve-IsSteady (force_flush now) b h =
    if_all (λ (r : Option (List Command) × CommandBatcher). IsSteady r.1) (is_empty b.buffer) _ _
      (λ _. h) (λ _. flush_batch-IsSteady now b (h.0, h.1, omega (arith, h.2)))
serve-IsSteady (reconfigure c) b h = (refl, h.1, h.2)

-- Whatever is asked of a new batcher, and however often its configuration changes, the adaptive
-- size is the configured maximum and no adjustment of it is ever counted.
pub serve_all-never_adapts :
    (rs : List Request) (now : ℕ) (c : BatchConfig)
    → let (cs, bs, t) = serve_all rs (new_batcher now c) in
      (t.adaptive_batch_size ≡ t.config.max_batch_size) × (t.stats.adaptive_adjustments ≡ 0)
serve_all-never_adapts rs now c =
    let h = go rs (new_batcher now c) (refl, refl, omega arith) in (h.0, h.1)
  where
    go : (rs : List Request) (b : CommandBatcher) → IsSteady b → IsSteady (serve_all rs b).2
    go [] b h = h
    go (r ∷ rs) b h = go rs (serve r b).2 (serve-IsSteady r b h)
