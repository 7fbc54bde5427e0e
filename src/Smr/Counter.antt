-- ===== src/Smr/Counter.antt =====
-- examples/counter_smr/src/lib.rs: a counter that refuses to overflow.
pub mod Exact
use rabia.Base.{ℕ, ◌+◌, ◌%◌, Bool, true, false, Option, none, some, u64_mod}
use rabia.Base.Text.{Str, bytes}
use rabia.Smr.{Machine}
use rabia.Smr.I64.{I64, checked_add, checked_sub}

pub data CounterCommand : Type 0 where
  increment : I64 → CounterCommand
  decrement : I64 → CounterCommand
  set_to : I64 → CounterCommand
  get_value : CounterCommand
  reset : CounterCommand

pub record CounterResponse : Type 0 where
  pub value : I64
  pub success : Bool
  pub message : Option Str

-- `CounterResponse::success` and `error`
abbrev pub counted : I64 → CounterResponse
counted value = record { value = value; success = true; message = none }

abbrev pub miscounted : I64 → Str → CounterResponse
miscounted value message = record { value = value; success = false; message = some message }

pub record CounterState : Type 0 where
  pub value : I64
  pub operation_count : ℕ

-- `CounterSMR::with_value`
abbrev pub with_value : I64 → CounterState
with_value initial_value = record { value = initial_value; operation_count = 0 }

abbrev pub change_value : Option I64 → Str → CounterState → CounterResponse × CounterState
change_value (some new_value) e s = (counted new_value, record s { value = new_value })
change_value none e s = (miscounted s.value e, s)

-- The command behind the count of operations.
abbrev pub apply_counter : CounterCommand → CounterState → CounterResponse × CounterState
apply_counter (increment n) s =
    change_value (checked_add s.value n) (bytes "Overflow: cannot increment counter") s
apply_counter (decrement n) s =
    change_value (checked_sub s.value n) (bytes "Underflow: cannot decrement counter") s
apply_counter (set_to n) s = (counted n, record s { value = n })
apply_counter get_value s = (counted s.value, s)
apply_counter reset s = (counted 0, record s { value = 0 })

unfoldable pub apply_counter_command :
    CounterCommand → CounterState → CounterResponse × CounterState
apply_counter_command c s =
    apply_counter c (record s { operation_count = (s.operation_count + 1) % u64_mod })

abbrev pub counter_machine : Machine CounterState CounterState CounterCommand CounterResponse
counter_machine = record {
  apply_command = apply_counter_command;
  get_state = λ s. s;
  set_state = λ t s. t;
}
