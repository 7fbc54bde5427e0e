-- ===== src/Core/Processor.antt =====
-- `BatchProcessor` of rabia-core/src/batching.rs. The function it calls may keep a state of its own,
-- so `process` is told how many calls were made before; futures that run in parallel are joined by a
-- crate, which returns the error of the one that fails first, here what `soonest` picks.
pub mod Joined
use rabia.Base.{
  ℕ, ◌+◌, Bool, true, false, ◌&&◌, List, [], ◌∷◌, map, Option, none, some, ltb, length,
  if◌then◌else◌,
}
use rabia.Core.Types.{Bytes, Command, CommandBatch}
use rabia.Core.Error.{RabiaError, Result, ok, err, ◌>>=◌}

pub record BatchProcessor : Type 0 where
  pub transform_fn : Option (Command → Command)
  pub parallel : Bool

-- `BatchProcessor::new`
abbrev pub new_processor : BatchProcessor
new_processor = record { transform_fn = none; parallel = false }

abbrev pub with_transform : (Command → Command) → BatchProcessor → BatchProcessor
with_transform f p = record p { transform_fn = some f }

abbrev pub with_parallel : Bool → BatchProcessor → BatchProcessor
with_parallel b p = record p { parallel = b }

abbrev pub transformed : Option (Command → Command) → List Command → List Command
transformed none cs = cs
transformed (some f) cs = map f cs

abbrev pub errors : {A : Type 0} → List (Result A) → List RabiaError
errors [] = []
errors (ok a ∷ rs) = errors rs
errors (err e ∷ rs) = e ∷ errors rs

abbrev pub oks : {A : Type 0} → List (Result A) → List A
oks [] = []
oks (ok a ∷ rs) = a ∷ oks rs
oks (err e ∷ rs) = oks rs

module _ (soonest : RabiaError → List RabiaError → RabiaError) where
  abbrev pub unless_failed : {A : Type 0} → List RabiaError → A → Result A
  unless_failed [] a = ok a
  unless_failed (e ∷ es) a = err (soonest e es)

  -- `try_join_all`
  abbrev pub try_join_all : {A : Type 0} → List (Result A) → Result (List A)
  try_join_all rs = unless_failed (errors rs) (oks rs)

module _ (process : ℕ → Command → Result Bytes) where
  -- The loop, which ends at the first error.
  abbrev pub run_in_order : ℕ → List Command → Result (List Bytes)
  run_in_order k [] = ok []
  run_in_order k (c ∷ cs) = process k c >>= λ b. run_in_order (k + 1) cs >>= λ bs. ok (b ∷ bs)

  abbrev pub call_all : ℕ → List Command → List (Result Bytes)
  call_all k [] = []
  call_all k (c ∷ cs) = process k c ∷ call_all (k + 1) cs

  unfoldable pub process_batch :
      (RabiaError → List RabiaError → RabiaError)
      → BatchProcessor
      → CommandBatch
      → Result (List Bytes)
  process_batch soonest p batch =
      let commands = transformed p.transform_fn batch.commands in
      if p.parallel && ltb 1 (length commands)
      then try_join_all soonest (call_all 0 commands)
      else run_in_order 0 commands
