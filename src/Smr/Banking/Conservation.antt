-- ===== src/Smr/Banking/Conservation.antt =====
-- No command of examples/banking_smr/src/lib.rs makes or loses money.
use mathlib.Core.Path.{subst}
use rabia.Base.{
  ℕ, ◌+◌, ◌%◌, ◌≤◌, ◌<◌, ◌≡◌, refl, sym, ◌∙◌, Bool, true, false, not, List, [], ◌∷◌, Option, none,
  some, arith, ltb, if◌then◌else◌, if_all, is_some, u64_mod,
}
use rabia.Base.Dict
use rabia.Base.Dict.{
  Dict, text_key, bytes_eq, bytes_eq_iff, contains_key, insert, update, NoRepeat, Entries,
  insert-NoRepeat, update-NoRepeat, insert-Entries, contains-get, contains-update,
}
use rabia.Base.Text.{Str}
use rabia.Smr.Banking.{
  Account, BankingData, balance_data, account_data, look_up, banking_machine, BankingCommand,
  create_account, deposit, withdraw, transfer, get_balance, get_account, list_accounts,
  get_transaction_history, BankingResponse, BankingSmr, update_balance, set_balance, open_account,
  deposit_sum, deposit_to, withdraw_from, credit, move_money, transfer_from, apply_banking,
  apply_banking_command, unless_error, validate_amount, validate_account_id,
}
use rabia.Smr.Banking.Total.{
  total, IsSolvent, IsSound, total-insert, total-update, balance_le_total, get-IsSolvent,
  update-IsSolvent,
}
use rabia.Smr.{run_commands}
use rabia.Smr.I64.{
  I64, i64_half, is_negative, less, wrapping_add, wrapping_sub, checked_add_positive,
}

-- The bits of the number in a command.
abbrev pub IsI64 : BankingCommand → Type 0
IsI64 (create_account id n) = n < u64_mod
IsI64 (deposit id n) = n < u64_mod
IsI64 (withdraw id n) = n < u64_mod
IsI64 (transfer from to n) = n < u64_mod
IsI64 _ = Unit

-- What a command that succeeds brings in from outside, and what it pays out.
abbrev pub inflow : BankingCommand → ℕ
inflow (create_account id n) = n
inflow (deposit id n) = n
inflow _ = 0

abbrev pub outflow : BankingCommand → ℕ
outflow (withdraw id n) = n
outflow _ = 0

abbrev pub when : Bool → ℕ → ℕ
when true n = n
when false n = 0

-- The result of a command on `s`: the accounts stay sound, and the money adds up.
abbrev pub Balanced : ℕ → ℕ → BankingSmr → BankingResponse × BankingSmr → Type 0
Balanced i o s r =
    IsSound (r.1)
    × (total r.1.state.accounts + when r.0.success o ≡ total s.state.accounts + when r.0.success i)

abbrev IsAmount : I64 → Type 0
IsAmount n = (0 < n) × (n ≤ 1000000000)

validate_amount-IsAmount : (n : I64) → n < u64_mod → validate_amount n ≡ none → IsAmount n
unfolding validate_amount
validate_amount-IsAmount n b h = ground arith

-- A balance that covers the amount.
debit :
    (b n : I64)
    → b < i64_half
    → IsAmount n
    → less b n ≡ false
    → (n ≤ b) × (wrapping_sub b n + n ≡ b)
debit b n l v h = ground arith

look_up-Balanced :
    (f : Account → BankingData) (o : Option Account) (s : BankingSmr)
    → IsSound s
    → Balanced 0 0 s (look_up f o s)
look_up-Balanced f none s h = (h, refl)
look_up-Balanced f (some a) s h = (h, refl)

-- The state with the operation counted.
abbrev pub counted : BankingSmr → BankingSmr
counted s = record s {
  state = record s.state { operation_count = (s.state.operation_count + 1) % u64_mod };
}

-- A check that fails leaves all as it is.
checked-Balanced :
    (i o : ℕ) (e : Option Str) (r : BankingResponse × BankingSmr) (s : BankingSmr)
    → IsSound s
    → (e ≡ none → Balanced i o s r)
    → Balanced i o s (unless_error e r s)
checked-Balanced i o none r s h f = f refl
checked-Balanced i o (some e) r s h f = (h, refl)

abbrev pub AllI64 : List BankingCommand → Type 0
AllI64 [] = Unit
AllI64 (c ∷ cs) = IsI64 c × AllI64 cs

-- All that the commands may bring in.
abbrev pub offered : List BankingCommand → ℕ
offered [] = 0
offered (c ∷ cs) = inflow c + offered cs

-- The sum over the commands that succeed.
abbrev pub moved : (BankingCommand → ℕ) → List BankingCommand → List BankingResponse → ℕ
moved f [] rs = 0
moved f (c ∷ cs) [] = 0
moved f (c ∷ cs) (r ∷ rs) = when r.success (f c) + moved f cs rs

when_le : (b : Bool) (n : ℕ) → when b n ≤ n
when_le true n = omega arith
when_le false n = omega arith

module _ (clock uuid : ℕ → ℕ) where
  -- The balance of one account is set anew.
  set_balance-IsSound :
      (k : Str) (b : I64) (s : BankingSmr)
      → b < i64_half
      → IsSound s
      → IsSound (set_balance clock uuid k b s)
  set_balance-IsSound k b s p h =
      (update-NoRepeat k _ s.state.accounts h.0, update-IsSolvent k _ b s.state.accounts p h.1)

  open_account-Balanced :
      (id : Str) (n : I64) (s : BankingSmr)
      → IsSound s
      → Balanced n 0 s (open_account clock uuid id n s)
  open_account-Balanced id n s h =
      if_all (λ r. Balanced n 0 s r) (is_negative n) _ _ (λ p. (h, refl))
        (λ p.
          if_all (λ r. Balanced n 0 s r) (contains_key id s.state.accounts) _ _ (λ q. (h, refl))
            (λ q. (
              (
                insert-NoRepeat id _ s.state.accounts h.0,
                insert-Entries IsSolvent id _ s.state.accounts (refl, ground arith) h.1,
              ),
              omega (arith, total-insert id _ s.state.accounts q),
            )))

  -- One account changes, and a transaction is recorded.
  set_balance-total :
      (k : Str) (b : I64) (a : Account) (s : BankingSmr)
      → Dict.get k s.state.accounts ≡ some a
      → total (set_balance clock uuid k b s).state.accounts + a.balance ≡ total s.state.accounts + b
  set_balance-total k b a s e = total-update k _ b a s.state.accounts e

  deposit_sum-Balanced :
      (a : Account) (id : Str) (n : I64) (s : BankingSmr)
      → IsSound s
      → Dict.get id s.state.accounts ≡ some a
      → Balanced n 0 s (
          deposit_sum clock uuid
            (if ltb (a.balance + n) i64_half then some (a.balance + n) else none)
            id
            n
            s)
  deposit_sum-Balanced a id n s h e =
      if_all (λ r. Balanced n 0 s (deposit_sum clock uuid r id n s)) (ltb (a.balance + n) i64_half)
        _ _
        (λ p. (
          set_balance-IsSound id _ s (ground arith) h,
          omega (arith, set_balance-total id (a.balance + n) a s e),
        ))
        (λ p. (h, refl))

  deposit_to-Balanced :
      (o : Option Account) (id : Str) (n : I64) (s : BankingSmr)
      → IsAmount n
      → IsSound s
      → Dict.get id s.state.accounts ≡ o
      → Balanced n 0 s (deposit_to clock uuid o id n s)
  deposit_to-Balanced none id n s v h e = (h, refl)
  deposit_to-Balanced (some a) id n s v h e =
      subst (λ r. Balanced n 0 s (deposit_sum clock uuid r id n s))
        (sym (
          checked_add_positive a.balance n (get-IsSolvent id a s.state.accounts h.1 e).1
            (ground arith)))
        (deposit_sum-Balanced a id n s h e)

  withdraw_from-Balanced :
      (o : Option Account) (id : Str) (n : I64) (s : BankingSmr)
      → IsAmount n
      → IsSound s
      → Dict.get id s.state.accounts ≡ o
      → Balanced 0 n s (withdraw_from clock uuid o id n s)
  withdraw_from-Balanced none id n s v h e = (h, refl)
  withdraw_from-Balanced (some a) id n s v h e =
      let b = get-IsSolvent id a s.state.accounts h.1 e in
      if_all (λ r. Balanced 0 n s r) (less a.balance n) _ _ (λ p. (h, refl))
        (λ p.
          let d = debit a.balance n b.1 v p in
          (
            set_balance-IsSound id _ s (ground arith) h,
            omega (arith, set_balance-total id (wrapping_sub a.balance n) a s e),
          ))

  credit-Balanced :
      (o : Option Account) (from to : Str) (n : I64) (s t : BankingSmr)
      → IsAmount n
      → total s.state.accounts < i64_half
      → IsSound t
      → Dict.get to t.state.accounts ≡ o
      → is_some o ≡ true
      → total t.state.accounts + n ≡ total s.state.accounts
      → Balanced 0 0 s (credit clock uuid o from to n t)
  credit-Balanced none from to n s t v l h e q m = absurd (cc q)
  credit-Balanced (some a) from to n s t v l h e q m = (
    set_balance-IsSound to _ t (ground (arith, balance_le_total to a t.state.accounts e)) h,
    omega (
      arith,
      balance_le_total to a t.state.accounts e,
      set_balance-total to (wrapping_add a.balance n) a t e,
    ),
  )

  move_money-Balanced :
      (a : Account) (from to : Str) (n : I64) (s : BankingSmr)
      → IsAmount n
      → total s.state.accounts < i64_half
      → IsSound s
      → Dict.get from s.state.accounts ≡ some a
      → Balanced 0 0 s (move_money clock uuid a.balance from to n s)
  move_money-Balanced a from to n s v l h e =
      let b = get-IsSolvent from a s.state.accounts h.1 e in
      if_all (λ r. Balanced 0 0 s r) (not (contains_key to s.state.accounts)) _ _ (λ p. (h, refl))
        (λ p.
          if_all (λ r. Balanced 0 0 s r) (less a.balance n) _ _ (λ q. (h, refl))
            (λ q.
              let d = debit a.balance n b.1 v q in
              let t = set_balance clock uuid from (wrapping_sub a.balance n) s in
              credit-Balanced (Dict.get to t.state.accounts) from to n s t v l
                (set_balance-IsSound from _ s (ground arith) h) refl
                (sym (contains-get to t.state.accounts)
                  ∙ contains-update from to
                      (update_balance (clock s.asked) (wrapping_sub a.balance n)) s.state.accounts
                  ∙ ground (arith, p))
                (omega (arith, set_balance-total from (wrapping_sub a.balance n) a s e))))

  transfer_from-Balanced :
      (o : Option Account) (from to : Str) (n : I64) (s : BankingSmr)
      → IsAmount n
      → total s.state.accounts < i64_half
      → IsSound s
      → Dict.get from s.state.accounts ≡ o
      → Balanced 0 0 s (transfer_from clock uuid o from to n s)
  transfer_from-Balanced none from to n s v l h e = (h, refl)
  transfer_from-Balanced (some a) from to n s v l h e = move_money-Balanced a from to n s v l h e

  -- While the accounts hold less than 2^63 together, a command leaves every account under its own
  -- identifier, once, and with a balance that is not negative; and what the accounts hold together
  -- changes by exactly what a command that succeeds brings in or pays out.
  pub apply_banking_command-Balanced :
      (c : BankingCommand) (s : BankingSmr)
      → IsI64 c
      → IsSound s
      → total s.state.accounts < i64_half
      → Balanced (inflow c) (outflow c) s (apply_banking_command clock uuid c s)
  unfolding apply_banking_command apply_banking
  apply_banking_command-Balanced (create_account id n) s i h l =
      checked-Balanced n 0 (validate_account_id id) _ (counted s) h
        (λ e. open_account-Balanced id n (counted s) h)
  apply_banking_command-Balanced (deposit id n) s i h l =
      checked-Balanced n 0 (validate_amount n) _ (counted s) h
        (λ e. deposit_to-Balanced _ id n (counted s) (validate_amount-IsAmount n i e) h refl)
  apply_banking_command-Balanced (withdraw id n) s i h l =
      checked-Balanced 0 n (validate_amount n) _ (counted s) h
        (λ e. withdraw_from-Balanced _ id n (counted s) (validate_amount-IsAmount n i e) h refl)
  apply_banking_command-Balanced (transfer from to n) s i h l =
      checked-Balanced 0 0 (validate_amount n) _ (counted s) h (λ e.
        if_all (λ r. Balanced 0 0 (counted s) r) (bytes_eq from to) _ _ (λ q. (h, refl))
          (λ q.
            transfer_from-Balanced _ from to n (counted s) (validate_amount-IsAmount n i e) l h
              refl))
  apply_banking_command-Balanced (get_balance id) s i h l =
      look_up-Balanced (λ a. balance_data a.balance) (Dict.get id s.state.accounts) (counted s) h
  apply_banking_command-Balanced (get_account id) s i h l =
      look_up-Balanced account_data (Dict.get id s.state.accounts) (counted s) h
  apply_banking_command-Balanced list_accounts s i h l = (h, refl)
  apply_banking_command-Balanced (get_transaction_history id k) s i h l = (h, refl)

  -- A sequence of commands, whose amounts are `i64`s, on a sound bank leaves it sound, with every
  -- account under its own identifier, once, and no balance negative, as long as what the commands may
  -- bring in and what is there are less than 2^63 together: the money at the end and all that was
  -- paid out is the money at the start and all that was brought in.
  pub run_commands-Balanced :
      (cs : List BankingCommand) (s : BankingSmr)
      → AllI64 cs
      → IsSound s
      → total s.state.accounts + offered cs < i64_half
      → let (rs, t) = run_commands (banking_machine clock uuid) cs s in
        IsSound t
        × (total t.state.accounts + moved outflow cs rs
            ≡ total s.state.accounts + moved inflow cs rs)
  unfolding run_commands
  run_commands-Balanced [] s i h l = (h, refl)
  run_commands-Balanced (c ∷ cs) s i h l =
      let (r, t) = apply_banking_command clock uuid c s in
      let one = apply_banking_command-Balanced c s i.0 h (omega arith) in
      let rest =
        run_commands-Balanced cs t i.1 one.0 (omega (arith, when_le r.success (inflow c), one.1)) in
      (rest.0, omega (arith, one.1, rest.1))
