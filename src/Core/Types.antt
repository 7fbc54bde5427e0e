-- ===== src/Core/Types.antt =====
-- rabia-core/src/types.rs: identifiers, votes, commands and batches.
-- A UUID is a 128-bit number, compared as such; making one, reading the clock and the checksum of
-- a batch belong to other crates, so a batch is built from the identifier and time they return.
use rabia.Base.{ℕ, ◌+◌, ◌%◌, Bool, true, false, List}

abbrev pub NodeId : Type 0
NodeId = ℕ

abbrev pub BatchId : Type 0
BatchId = ℕ

-- A `u64`.
abbrev pub PhaseId : Type 0
PhaseId = ℕ

abbrev pub Bytes : Type 0
Bytes = List ℕ

-- `PhaseId::next`, without the check for overflow of a debug build.
unfoldable pub next : PhaseId → PhaseId
next p = (p + 1) % 18446744073709551616

pub data StateValue : Type 0 where
  v0 v1 v_question : StateValue

-- The derived `==`.
abbrev pub value_eq : StateValue → StateValue → Bool
value_eq v0 v0 = true
value_eq v1 v1 = true
value_eq v_question v_question = true
value_eq _ _ = false

pub record Command : Type 0 where
  pub id : ℕ
  pub payload : Bytes

pub record CommandBatch : Type 0 where
  pub id : BatchId
  pub commands : List Command
  pub timestamp : ℕ

-- `CommandBatch::new`, from the identifier and the time that it asks for.
abbrev pub new_batch : ℕ → ℕ → List Command → CommandBatch
new_batch uuid now commands = record { id = uuid; commands = commands; timestamp = now }
