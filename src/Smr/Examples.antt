-- ===== src/Smr/Examples.antt =====
-- The theorems on the example machines at concrete inputs.
use rabia.Base.{ℕ, ◌+◌, ◌≡◌, refl, List, [], ◌∷◌, map, arith}
use rabia.Base.Text.{bytes}
use rabia.Smr.{run_commands}
use rabia.Smr.I64.{shifted}
use rabia.Smr.Banking.{
  new_account, BankingCommand, create_account, deposit, withdraw, transfer, BankingSmr, new_bank,
  apply_banking_command, banking_machine,
}
use rabia.Smr.Banking.Total.{IsSound, total}
use rabia.Smr.Banking.Conservation.{inflow, outflow, moved, run_commands-Balanced}
use rabia.Smr.Banking.Overflow.{Overdrawn, transfer_overflows}
use rabia.Smr.Counter.{
  CounterCommand, increment, decrement, set_to, CounterResponse, with_value, counter_machine,
}
use rabia.Smr.Counter.Exact.{count_all, run_commands-exact}

abbrev clock : ℕ → ℕ
clock n = 1000 + n

abbrev uuid : ℕ → ℕ
uuid n = 77 + n

abbrev bank_of : ℕ → ℕ → BankingSmr
bank_of a b = record new_bank {
  state = record new_bank.state {
    accounts =
        (bytes "ann", new_account 1 (bytes "ann") a)
        ∷ (bytes "bob", new_account 2 (bytes "bob") b)
        ∷ [];
  };
}

-- The last command fails.
abbrev business : List BankingCommand
business =
    create_account (bytes "eve") 5
    ∷ deposit (bytes "bob") 10
    ∷ withdraw (bytes "ann") 7
    ∷ withdraw (bytes "eve") 600
    ∷ []

run_commands-Balanced_example :
    let (rs, t) = run_commands (banking_machine clock uuid) business (bank_of 50 20) in
    IsSound t × (total t.state.accounts + moved outflow business rs ≡ 70 + moved inflow business rs)
run_commands-Balanced_example =
    run_commands-Balanced clock uuid business (bank_of 50 20)
      (omega arith, (omega arith, (omega arith, (omega arith, tt))))
      ((refl, (refl, tt)), ((refl, omega arith), ((refl, omega arith), tt))) (omega arith)

transfer_overflows_example : Overdrawn (bytes "bob") (
    apply_banking_command clock uuid
      (transfer (bytes "ann") (bytes "bob") 30)
      (bank_of 50 9223372036854775800))
transfer_overflows_example =
    transfer_overflows clock uuid (bytes "ann") (bytes "bob") 30 (new_account 1 (bytes "ann") 50)
      (new_account 2 (bytes "bob") 9223372036854775800) (bank_of 50 9223372036854775800) refl
      (omega arith) (omega arith) refl refl (omega arith) (omega arith) (omega arith) (omega arith)

-- From -3 to the greatest number, and no further.
abbrev counting : List CounterCommand
counting = increment 5 ∷ decrement 1 ∷ set_to 9223372036854775807 ∷ increment 1 ∷ []

run_commands-exact_example :
    let (rs, t) = run_commands counter_machine counting (with_value 18446744073709551613) in
    let (bs, x) = count_all counting (shifted 18446744073709551613) in
    (map (λ (r : CounterResponse). r.success) rs ≡ bs) × (shifted t.value ≡ x)
run_commands-exact_example =
    run_commands-exact counting (with_value 18446744073709551613)
      (omega arith, (omega arith, (omega arith, (omega arith, tt)))) (omega arith)
