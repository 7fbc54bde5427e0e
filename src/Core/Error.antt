-- ===== src/Core/Error.antt =====
-- rabia-core/src/error.rs: the error type and the result type of every fallible operation.
-- A message made by `format!` is its template with the numbers that are put in.
use rabia.Base.{ℕ, Bool, true, false, List, [], String}
use Prim.Native.String.{◌++◌}
use rabia.Core.Types.{NodeId, PhaseId, BatchId}

pub record Text : Type 0 where
  pub template : String
  pub args : List ℕ

abbrev pub text : String → Text
text s = record { template = s; args = [] }

abbrev pub format : String → List ℕ → Text
format s ns = record { template = s; args = ns }

-- The payloads of `Serialization` and `Io` are errors of other crates; their text is kept.
pub data RabiaError : Type 0 where
  network : Text → RabiaError
  persistence : Text → RabiaError
  state_machine : Text → RabiaError
  consensus : Text → RabiaError
  node_not_found : NodeId → RabiaError
  phase_not_found : PhaseId → RabiaError
  batch_not_found : BatchId → RabiaError
  invalid_state_transition : Text → Text → RabiaError
  quorum_not_available : ℕ → ℕ → RabiaError
  checksum_mismatch : ℕ → ℕ → RabiaError
  state_corruption : Text → RabiaError
  partial_write : Text → RabiaError
  timeout : Text → RabiaError
  serialization : Text → RabiaError
  io : Text → RabiaError
  internal : Text → RabiaError

-- `RabiaError::network`, `persistence` and so on, whose argument becomes the text; the constructor
-- that is named for serialization makes an internal error.
abbrev pub network_error : Text → RabiaError
network_error m = network m

abbrev pub persistence_error : Text → RabiaError
persistence_error m = persistence m

abbrev pub state_machine_error : Text → RabiaError
state_machine_error m = state_machine m

abbrev pub consensus_error : Text → RabiaError
consensus_error m = consensus m

abbrev pub internal_error : Text → RabiaError
internal_error m = internal m

abbrev pub timeout_error : Text → RabiaError
timeout_error operation = timeout operation

abbrev pub serialization_error : Text → RabiaError
serialization_error m =
    internal (record { template = "Serialization error: " ++ m.template; args = m.args })

unfoldable pub is_retryable : RabiaError → Bool
is_retryable (network m) = true
is_retryable (timeout m) = true
is_retryable (quorum_not_available c r) = true
is_retryable _ = false

pub data Result (A : Type 0) : Type 0 where
  ok : A → Result A
  err : RabiaError → Result A

-- The `?` operator.
infixl 5 ◌>>=◌ ◌>>◌
abbrev pub ◌>>=◌ : {A B : Type 0} → Result A → (A → Result B) → Result B
ok a >>= f = f a
err e >>= f = err e

abbrev pub ◌>>◌ : {B : Type 0} → Result (Unit {0}) → Result B → Result B
m >> k = m >>= λ _. k

abbrev pub raise_if : Bool → RabiaError → Result (Unit {0})
raise_if true e = err e
raise_if false e = ok tt

abbrev pub is_ok : {A : Type 0} → Result A → Bool
is_ok (ok a) = true
is_ok (err e) = false
