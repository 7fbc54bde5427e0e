-- ===== src/Kvstore/Operations.antt =====
-- rabia-kvstore/src/operations.rs: the operations of the store, their results and errors, and
-- batches of them. A new identifier and a reading of the clock are arguments.
use rabia.Base.{
  ℕ, ◌-◌, Bool, true, false, not, ltb, ◌==◌, List, [], ◌∷◌, ◌++◌, map, Option, none, some, length,
  count_if, String,
}
use rabia.Base.Text.{Str, bytes}

pub data KvOperation : Type 0 where
  set : Str → Str → KvOperation
  get : Str → KvOperation
  delete : Str → KvOperation
  exists : Str → KvOperation

unfoldable pub key : KvOperation → Str
key (set k v) = k
key (get k) = k
key (delete k) = k
key (exists k) = k

unfoldable pub operation_type : KvOperation → String
operation_type (set k v) = "SET"
operation_type (get k) = "GET"
operation_type (delete k) = "DELETE"
operation_type (exists k) = "EXISTS"

abbrev pub is_write_operation : KvOperation → Bool
is_write_operation (set k v) = true
is_write_operation (delete k) = true
is_write_operation _ = false

abbrev pub is_read_operation : KvOperation → Bool
is_read_operation op = not (is_write_operation op)

pub data KvResult : Type 0 where
  success : KvResult
  not_found : KvResult
  error : Str → KvResult

abbrev pub is_success : KvResult → Bool
is_success success = true
is_success _ = false

abbrev pub is_not_found : KvResult → Bool
is_not_found not_found = true
is_not_found _ = false

abbrev pub is_error : KvResult → Bool
is_error (error m) = true
is_error _ = false

unfoldable pub error_message : KvResult → Option Str
error_message (error m) = some m
error_message _ = none

pub data StoreError : Type 0 where
  invalid_key : Str → StoreError
  value_too_large : StoreError
  store_full : StoreError
  serialization_error : Str → StoreError
  invalid_snapshot : StoreError
  io_error : Str → StoreError
  network_error : Str → StoreError
  consensus_error : Str → StoreError
  timeout : StoreError
  shutting_down : StoreError
  internal : Str → StoreError

-- `Display`, as the `#[error]` attributes say.
unfoldable pub to_string : StoreError → Str
to_string (invalid_key m) = bytes "Invalid key: " ++ m
to_string value_too_large = bytes "Value too large"
to_string store_full = bytes "Store is full"
to_string (serialization_error m) = bytes "Serialization error: " ++ m
to_string invalid_snapshot = bytes "Invalid snapshot"
to_string (io_error m) = bytes "IO error: " ++ m
to_string (network_error m) = bytes "Network error: " ++ m
to_string (consensus_error m) = bytes "Consensus error: " ++ m
to_string timeout = bytes "Operation timed out"
to_string shutting_down = bytes "Store is shutting down"
to_string (internal m) = bytes "Internal error: " ++ m

-- `impl From<StoreError> for KVResult`
unfoldable pub from_error : StoreError → KvResult
from_error e = error (to_string e)

unfoldable pub is_recoverable : StoreError → Bool
is_recoverable (network_error m) = true
is_recoverable timeout = true
is_recoverable (consensus_error m) = true
is_recoverable _ = false

unfoldable pub is_client_error : StoreError → Bool
is_client_error (invalid_key m) = true
is_client_error value_too_large = true
is_client_error store_full = true
is_client_error _ = false

unfoldable pub is_server_error : StoreError → Bool
is_server_error (io_error m) = true
is_server_error (internal m) = true
is_server_error shutting_down = true
is_server_error _ = false

-- `Result<A, StoreError>`
pub data StoreResult (A : Type 0) : Type 0 where
  ok : A → StoreResult A
  err : StoreError → StoreResult A

abbrev pub succeeds : {A : Type 0} → StoreResult A → Bool
succeeds (ok a) = true
succeeds (err x) = false

pub record OperationBatch : Type 0 where
  pub operations : List KvOperation
  pub batch_id : ℕ
  pub created_at : ℕ

-- `OperationBatch::new`
abbrev pub new_operation_batch : ℕ → ℕ → List KvOperation → OperationBatch
new_operation_batch uuid now ops = record { operations = ops; batch_id = uuid; created_at = now }

unfoldable pub has_writes : List KvOperation → Bool
has_writes [] = false
has_writes (op ∷ ops) = elim (is_write_operation op) [ true ↦ true | false ↦ has_writes ops ]

unfoldable pub all_reads : List KvOperation → Bool
all_reads [] = true
all_reads (op ∷ ops) = elim (is_read_operation op) [ true ↦ all_reads ops | false ↦ false ]

unfoldable pub has_write_operations : OperationBatch → Bool
unfolding has_writes
has_write_operations b = has_writes b.operations

unfoldable pub is_read_only : OperationBatch → Bool
unfolding all_reads
is_read_only b = all_reads b.operations

unfoldable pub affected_keys : OperationBatch → List Str
affected_keys b = map key b.operations

pub record BatchResult : Type 0 where
  pub batch_id : ℕ
  pub results : List KvResult
  pub success_count : ℕ
  pub failure_count : ℕ
  pub execution_time_ms : ℕ

-- `BatchResult::new`
unfoldable pub new_batch_result : ℕ → List KvResult → ℕ → BatchResult
new_batch_result batch_id results execution_time_ms = record {
  batch_id = batch_id;
  results = results;
  success_count = count_if is_success results;
  failure_count = length results - count_if is_success results;
  execution_time_ms = execution_time_ms;
}

unfoldable pub all_succeeded : BatchResult → Bool
all_succeeded r = r.failure_count == 0

unfoldable pub has_failures : BatchResult → Bool
has_failures r = ltb 0 r.failure_count
