-- ===== src/Core/Processor/Joined.antt =====
-- Processing a batch in parallel and in order (rabia-core/src/batching.rs).
use rabia.Base.{
  ℕ, ◌+◌, ◌≡◌, refl, sym, ap, ◌∙◌, Bool, ◌&&◌, List, [], ◌∷◌, Option, none, some, ltb, length,
  if◌then◌else◌, if_all,
}
use rabia.Core.Types.{Bytes, Command, CommandBatch}
use rabia.Core.Error.{RabiaError, Result, ok, err, ◌>>=◌}
use rabia.Core.Processor.{
  BatchProcessor, with_parallel, transformed, errors, oks, unless_failed, try_join_all,
  run_in_order, call_all, process_batch,
}

-- The results, without saying which error there was.
abbrev pub results : {A : Type 0} → Result A → Option A
results (ok a) = some a
results (err e) = none

module _ (soonest : RabiaError → List RabiaError → RabiaError)
    (process : ℕ → Command → Result Bytes) where
  abbrev both : Result Bytes → Result (List Bytes) → Result (List Bytes)
  both r rest = r >>= λ b. rest >>= λ bs. ok (b ∷ bs)

  try_join_all-cons :
      (r : Result Bytes) (rs : List (Result Bytes)) (rest : Result (List Bytes))
      → results (try_join_all soonest rs) ≡ results rest
      → results (try_join_all soonest (r ∷ rs)) ≡ results (both r rest)
  try_join_all-cons (err e) rs rest h = refl
  try_join_all-cons (ok b) rs rest h = go (errors rs) rest h
    where
      go :
          (es : List RabiaError) (rest : Result (List Bytes))
          → results (unless_failed soonest es (oks rs)) ≡ results rest
          → results (unless_failed soonest es (b ∷ oks rs)) ≡ results (both (ok b) rest)
      go [] (ok bs) h = ap some (ap (◌∷◌ b) (let same : oks rs ≡ bs = cc h in same))
      go [] (err e) h = absurd (cc h)
      go (e ∷ es) (ok bs) h = absurd (cc h)
      go (e ∷ es) (err x) h = refl

  try_join_all-call_all :
      (k : ℕ) (cs : List Command)
      → results (try_join_all soonest (call_all process k cs)) ≡ results (run_in_order process k cs)
  try_join_all-call_all k [] = refl
  try_join_all-call_all k (c ∷ cs) =
      try_join_all-cons (process k c) (call_all process (k + 1) cs)
        (run_in_order process (k + 1) cs) (try_join_all-call_all (k + 1) cs)

  -- Whether a processor works in parallel does not change what a batch gives, where the answer to a
  -- command does not depend on how the calls overlap: the same results in the order of the commands,
  -- or an error in both cases.
  pub process_batch-with_parallel :
      (p : BatchProcessor) (batch : CommandBatch) (b : Bool)
      → results (process_batch process soonest (with_parallel b p) batch)
        ≡ results (process_batch process soonest p batch)
  unfolding process_batch
  process_batch-with_parallel p batch b =
      let cs = transformed p.transform_fn batch.commands in either cs b ∙ sym (either cs p.parallel)
    where
      either :
          (cs : List Command) (b : Bool)
          → results (
              if b && ltb 1 (length cs)
              then try_join_all soonest (call_all process 0 cs)
              else run_in_order process 0 cs)
            ≡ results (run_in_order process 0 cs)
      either cs b =
          if_all (λ (r : Result (List Bytes)). results r ≡ results (run_in_order process 0 cs))
            (b && ltb 1 (length cs)) _ _ (λ _. try_join_all-call_all 0 cs) (λ _. refl)
