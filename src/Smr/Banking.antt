-- ===== src/Smr/Banking.antt =====
-- examples/banking_smr/src/lib.rs: a ledger of accounts. Sums that the code does not check wrap
-- around, as they do in a release build. `clock` and `uuid` answer the k-th question that the ledger
-- asks of its surroundings.
pub mod Total
pub mod Conservation
pub mod Overflow
use rabia.Base.{
  ℕ, suc, ◌+◌, ◌%◌, u64_mod, Bool, true, false, not, ◌||◌, List, [], ◌∷◌, ◌++◌, Option, none, some,
  ltb, leb, length, take, if◌then◌else◌, is_empty, map,
}
use rabia.Base.Dict
use rabia.Base.Dict.{Dict, text_key, bytes_eq, contains_key, insert, update}
use rabia.Base.Text.{Str, bytes}
use rabia.Smr.{Machine}
use rabia.Smr.I64.{I64, is_negative, less, wrapping_add, wrapping_sub, checked_add}

pub record Account : Type 0 where
  pub account_id : Str
  pub balance : I64
  pub created_at : ℕ
  pub last_transaction_at : ℕ
  pub transaction_count : ℕ

-- `Account::new`
abbrev pub new_account : ℕ → Str → I64 → Account
new_account now account_id initial_balance = record {
  account_id = account_id;
  balance = initial_balance;
  created_at = now;
  last_transaction_at = now;
  transaction_count = 0;
}

abbrev pub update_balance : ℕ → I64 → Account → Account
update_balance now new_balance a = record a {
  balance = new_balance;
  last_transaction_at = now;
  transaction_count = (a.transaction_count + 1) % u64_mod;
}

pub data TransactionType : Type 0 where
  deposited withdrawn transferred : TransactionType

pub record Transaction : Type 0 where
  pub transaction_id : ℕ
  pub from_account : Option Str
  pub to_account : Option Str
  pub amount : I64
  pub timestamp : ℕ
  pub transaction_type : TransactionType

pub data BankingCommand : Type 0 where
  create_account : Str → I64 → BankingCommand
  deposit : Str → I64 → BankingCommand
  withdraw : Str → I64 → BankingCommand
  transfer : Str → Str → I64 → BankingCommand
  get_balance : Str → BankingCommand
  get_account : Str → BankingCommand
  list_accounts : BankingCommand
  get_transaction_history : Option Str → Option ℕ → BankingCommand

pub data BankingData : Type 0 where
  account_data : Account → BankingData
  balance_data : I64 → BankingData
  accounts_data : List Account → BankingData
  transactions_data : List Transaction → BankingData

pub record BankingResponse : Type 0 where
  pub success : Bool
  pub payload : Option BankingData
  pub error : Option Str
  pub transaction_id : Option ℕ

-- `BankingResponse::success`, `success_with_transaction` and `error`
abbrev pub succeeded : Option BankingData → BankingResponse
succeeded payload = record {
  success = true;
  payload = payload;
  error = none;
  transaction_id = none;
}

abbrev pub succeeded_with : Option BankingData → ℕ → BankingResponse
succeeded_with payload id = record {
  success = true;
  payload = payload;
  error = none;
  transaction_id = some id;
}

abbrev pub failed_with : Str → BankingResponse
failed_with message = record {
  success = false;
  payload = none;
  error = some message;
  transaction_id = none;
}

pub record BankingState : Type 0 where
  pub accounts : Dict Str Account
  pub transactions : List Transaction
  pub operation_count : ℕ

-- `BankingSMR`; `asked` counts the questions to the surroundings.
pub record BankingSmr : Type 0 where
  pub state : BankingState
  pub asked : ℕ

-- `BankingSMR::new`
abbrev pub new_bank : BankingSmr
new_bank = record {
  state = record { accounts = []; transactions = []; operation_count = 0 };
  asked = 0;
}

-- The error, if there is one.
unfoldable pub validate_amount : I64 → Option Str
validate_amount amount =
    if not (less 0 amount)
    then some (bytes "Amount must be positive")
    else if less 1000000000 amount
    then some (bytes "Amount exceeds maximum limit")
    else none

unfoldable pub validate_account_id : Str → Option Str
validate_account_id account_id =
    if is_empty account_id
    then some (bytes "Account ID cannot be empty")
    else if ltb 50 (length account_id)
    then some (bytes "Account ID too long")
    else none

abbrev pub with_accounts : Dict Str Account → BankingSmr → BankingSmr
with_accounts accounts s = record s { state = record s.state { accounts = accounts } }

-- An error ends a command.
abbrev pub unless_error :
    Option Str → BankingResponse × BankingSmr → BankingSmr → BankingResponse × BankingSmr
unless_error none r s = r
unless_error (some e) r s = (failed_with e, s)

-- Whether a transaction has to do with the account.
abbrev pub touches : Str → Transaction → Bool
touches id t = names t.from_account || names t.to_account
  where
    names : Option Str → Bool
    names none = false
    names (some k) = bytes_eq k id

abbrev pub of_account : Option Str → List Transaction → List Transaction
of_account none ts = ts
of_account (some id) [] = []
of_account (some id) (t ∷ ts) =
    if touches id t then t ∷ of_account (some id) ts else of_account (some id) ts

-- The stable sort by time, newest first.
unfoldable pub insert_newest : Transaction → List Transaction → List Transaction
insert_newest t [] = t ∷ []
insert_newest t (u ∷ us) =
    if leb u.timestamp t.timestamp then t ∷ u ∷ us else u ∷ insert_newest t us

unfoldable pub newest_first : List Transaction → List Transaction
unfolding insert_newest
newest_first [] = []
newest_first (t ∷ ts) = insert_newest t (newest_first ts)

abbrev pub truncate : Option ℕ → List Transaction → List Transaction
truncate none ts = ts
truncate (some limit) ts = take limit ts

abbrev pub all_accounts : Dict Str Account → List Account
all_accounts [] = []
all_accounts ((k, a) ∷ d) = a ∷ all_accounts d

-- A query on one account.
abbrev pub look_up :
    (Account → BankingData) → Option Account → BankingSmr → BankingResponse × BankingSmr
look_up f none s = (failed_with (bytes "Account not found"), s)
look_up f (some a) s = (succeeded (some (f a)), s)

module _ (clock uuid : ℕ → ℕ) where
  -- A new balance, with the time of the change.
  abbrev pub set_balance : Str → I64 → BankingSmr → BankingSmr
  set_balance id new_balance s = record s {
    state = record s.state {
      accounts = update id (update_balance (clock s.asked) new_balance) s.state.accounts;
    };
    asked = suc s.asked;
  }

  -- A transaction is put on record, and its identifier returned.
  abbrev pub finish :
      Option BankingData
      → Option Str
      → Option Str
      → I64
      → TransactionType
      → BankingSmr
      → BankingResponse × BankingSmr
  finish payload from to amount kind s = (
    succeeded_with payload (uuid s.asked),
    record s {
      state = record s.state {
        transactions =
            s.state.transactions
            ++ record {
              transaction_id = uuid s.asked;
              from_account = from;
              to_account = to;
              amount = amount;
              timestamp = clock (suc s.asked);
              transaction_type = kind;
            }
              ∷ [];
      };
      asked = suc (suc s.asked);
    },
  )

  abbrev pub open_account : Str → I64 → BankingSmr → BankingResponse × BankingSmr
  open_account id initial s =
      if is_negative initial
      then (failed_with (bytes "Initial balance cannot be negative"), s)
      else if contains_key id s.state.accounts
      then (failed_with (bytes "Account already exists"), s)
      else (
        succeeded (some (account_data (new_account (clock s.asked) id initial))),
        record s {
          state = record s.state {
            accounts = insert id (new_account (clock s.asked) id initial) s.state.accounts;
          };
          asked = suc s.asked;
        },
      )

  abbrev pub deposit_sum : Option I64 → Str → I64 → BankingSmr → BankingResponse × BankingSmr
  deposit_sum none id amount s = (failed_with (bytes "Deposit would cause overflow"), s)
  deposit_sum (some sum) id amount s =
      finish (some (balance_data sum)) none (some id) amount deposited (set_balance id sum s)

  abbrev pub deposit_to : Option Account → Str → I64 → BankingSmr → BankingResponse × BankingSmr
  deposit_to none id amount s = (failed_with (bytes "Account not found"), s)
  deposit_to (some account) id amount s =
      deposit_sum (checked_add account.balance amount) id amount s

  abbrev pub withdraw_from : Option Account → Str → I64 → BankingSmr → BankingResponse × BankingSmr
  withdraw_from none id amount s = (failed_with (bytes "Account not found"), s)
  withdraw_from (some account) id amount s =
      let left = wrapping_sub account.balance amount in
      if less account.balance amount
      then (failed_with (bytes "Insufficient funds"), s)
      else finish (some (balance_data left)) (some id) none amount withdrawn (set_balance id left s)

  -- The second half of a transfer reads the destination after the source has changed.
  abbrev pub credit : Option Account → Str → Str → I64 → BankingSmr → BankingResponse × BankingSmr
  credit none from to amount s = (failed_with (bytes "Destination account not found"), s)
  credit (some account) from to amount s =
      finish none (some from) (some to) amount transferred
        (set_balance to (wrapping_add account.balance amount) s)

  abbrev pub move_money : I64 → Str → Str → I64 → BankingSmr → BankingResponse × BankingSmr
  move_money from_balance from to amount s =
      let debited = set_balance from (wrapping_sub from_balance amount) s in
      if not (contains_key to s.state.accounts)
      then (failed_with (bytes "Destination account not found"), s)
      else if less from_balance amount
      then (failed_with (bytes "Insufficient funds"), s)
      else credit (Dict.get to debited.state.accounts) from to amount debited

  abbrev pub transfer_from :
      Option Account → Str → Str → I64 → BankingSmr → BankingResponse × BankingSmr
  transfer_from none from to amount s = (failed_with (bytes "Source account not found"), s)
  transfer_from (some account) from to amount s = move_money account.balance from to amount s

  -- The command behind the count of operations.
  unfoldable pub apply_banking : BankingCommand → BankingSmr → BankingResponse × BankingSmr
  apply_banking (create_account id initial) s =
      unless_error (validate_account_id id) (open_account id initial s) s
  apply_banking (deposit id amount) s =
      unless_error (validate_amount amount) (deposit_to (Dict.get id s.state.accounts) id amount s)
        s
  apply_banking (withdraw id amount) s =
      unless_error (validate_amount amount)
        (withdraw_from (Dict.get id s.state.accounts) id amount s) s
  apply_banking (transfer from to amount) s =
      unless_error (validate_amount amount)
        (if bytes_eq from to
          then (failed_with (bytes "Cannot transfer to same account"), s)
          else transfer_from (Dict.get from s.state.accounts) from to amount s)
        s
  apply_banking (get_balance id) s =
      look_up (λ a. balance_data a.balance) (Dict.get id s.state.accounts) s
  apply_banking (get_account id) s = look_up account_data (Dict.get id s.state.accounts) s
  apply_banking list_accounts s =
      (succeeded (some (accounts_data (all_accounts s.state.accounts))), s)
  apply_banking (get_transaction_history id limit) s = (
    succeeded (
        some
          (transactions_data (truncate limit (newest_first (of_account id s.state.transactions))))),
    s,
  )

  unfoldable pub apply_banking_command : BankingCommand → BankingSmr → BankingResponse × BankingSmr
  apply_banking_command c s = apply_banking c (record s {
    state = record s.state { operation_count = (s.state.operation_count + 1) % u64_mod };
  })

  abbrev pub banking_machine : Machine BankingSmr BankingState BankingCommand BankingResponse
  banking_machine = record {
    apply_command = apply_banking_command;
    get_state = λ s. s.state;
    set_state = λ t s. record s { state = t };
  }

-- `total_value`: the sum of the balances, which wraps around.
unfoldable pub total_value : Dict Str Account → I64
total_value [] = 0
total_value ((k, a) ∷ d) = wrapping_add a.balance (total_value d)
