-- ===== src/Smr/Banking/Overflow.antt =====
-- The sum that a transfer of examples/banking_smr/src/lib.rs does not check.
use mathlib.Core.Path.{subst}
use rabia.Base.{
  ℕ, ◌+◌, ◌≤◌, ◌<◌, ◌≡◌, refl, sym, ◌∙◌, ap, not, if_all, true, false, none, some, arith,
  if◌then◌else◌,
}
use rabia.Base.Dict
use rabia.Base.Dict.{
  text_key, bytes_eq, bytes_eq_iff, contains_key, contains-get, get-update, update,
}
use rabia.Base.Text.{Str, bytes}
use rabia.Smr.Banking.{
  failed_with, BankingResponse, Account, BankingSmr, transfer, update_balance, apply_banking,
  apply_banking_command, validate_amount, move_money, unless_error, transfer_from, credit,
  set_balance,
}
use rabia.Smr.Banking.Conservation.{counted}
use rabia.Smr.I64.{I64, i64_half, is_negative, less, wrapping_add, wrapping_sub}

validate_amount-none : (n : I64) → 0 < n → n ≤ 1000000000 → validate_amount n ≡ none
unfolding validate_amount
validate_amount-none n p q = ground arith

-- The command has succeeded, and the account is below zero.
abbrev pub Overdrawn : Str → BankingResponse × BankingSmr → Type 0
Overdrawn k r =
    (r.0.success ≡ true)
    × ((x : Account) × (Dict.get k r.1.state.accounts ≡ some x) × (is_negative x.balance ≡ true))

module _ (clock uuid : ℕ → ℕ) where
  get-set_balance :
      (k j : Str) (m : I64) (a : Account) (s : BankingSmr)
      → Dict.get k s.state.accounts ≡ some a
      → Dict.get j (set_balance clock uuid k m s).state.accounts ≡ (
          if bytes_eq j k
          then some (update_balance (clock s.asked) m a)
          else Dict.get j s.state.accounts)
  get-set_balance k j m a s e =
      get-update k j (update_balance (clock s.asked) m) s.state.accounts
      ∙ ap
          (λ o.
            if bytes_eq j k
            then elim o [ none ↦ none | some v ↦ some (update_balance (clock s.asked) m v) ]
            else Dict.get j s.state.accounts)
          e

  credit-Overdrawn :
      (from to : Str) (n : I64) (b : Account) (s : BankingSmr)
      → n ≤ 1000000000
      → b.balance < i64_half
      → i64_half ≤ b.balance + n
      → Dict.get to s.state.accounts ≡ some b
      → Overdrawn to (credit clock uuid (some b) from to n s)
  credit-Overdrawn from to n b s q l o g = (
    refl,
    (
      update_balance (clock s.asked) (wrapping_add b.balance n) b,
      get-set_balance to to (wrapping_add b.balance n) b s g
          ∙ ap
              (λ t.
                if t
                then some (update_balance (clock s.asked) (wrapping_add b.balance n) b)
                else Dict.get to s.state.accounts)
              ((bytes_eq_iff to to).1 refl),
      ground arith,
    ),
  )

  move_money-Overdrawn :
      (from to : Str) (n : I64) (a b : Account) (s : BankingSmr)
      → bytes_eq to from ≡ false
      → 0 < n
      → n ≤ 1000000000
      → Dict.get from s.state.accounts ≡ some a
      → Dict.get to s.state.accounts ≡ some b
      → n ≤ a.balance
      → a.balance < i64_half
      → b.balance < i64_half
      → i64_half ≤ b.balance + n
      → Overdrawn to (move_money clock uuid a.balance from to n s)
  move_money-Overdrawn from to n a b s e p q f g c k l o =
      let t = set_balance clock uuid from (wrapping_sub a.balance n) s in
      let there =
        get-set_balance from to (wrapping_sub a.balance n) a s f
        ∙ ap
            (λ x.
              if x
              then some (update_balance (clock s.asked) (wrapping_sub a.balance n) a)
              else Dict.get to s.state.accounts)
            e
        ∙ g in
      if_all (λ r. Overdrawn to r) (not (contains_key to s.state.accounts)) _ _
        (λ x. absurd (ground (arith, x, g, contains-get to s.state.accounts)))
        (λ x.
          if_all (λ r. Overdrawn to r) (less a.balance n) _ _ (λ y. absurd (ground arith))
            (λ y.
              subst (λ r. Overdrawn to (credit clock uuid r from to n t)) (sym there)
                (credit-Overdrawn from to n b t q l o there)))

  -- A transfer that the source covers, to an account whose balance it takes to 2^63 or more,
  -- succeeds, and leaves the destination with a negative balance.
  pub transfer_overflows :
      (from to : Str) (n : I64) (a b : Account) (s : BankingSmr)
      → bytes_eq from to ≡ false
      → 0 < n
      → n ≤ 1000000000
      → Dict.get from s.state.accounts ≡ some a
      → Dict.get to s.state.accounts ≡ some b
      → n ≤ a.balance
      → a.balance < i64_half
      → b.balance < i64_half
      → i64_half ≤ b.balance + n
      → Overdrawn to (apply_banking_command clock uuid (transfer from to n) s)
  unfolding apply_banking_command apply_banking
  transfer_overflows from to n a b s e p q f g c k l o =
      subst
        (λ r. Overdrawn to (
          unless_error r
            (if bytes_eq from to
              then (failed_with (bytes "Cannot transfer to same account"), counted s)
              else transfer_from clock uuid (Dict.get from s.state.accounts) from to n (counted s))
            (counted s)))
        (sym (validate_amount-none n p q))
        (if_all (λ r. Overdrawn to r) (bytes_eq from to) _ _ (λ x. absurd (ground (arith, x, e)))
          (λ x.
            subst (λ r. Overdrawn to (transfer_from clock uuid r from to n (counted s))) (sym f)
              (move_money-Overdrawn from to n a b (counted s)
                (ground (arith, e, bytes_eq_iff from to, bytes_eq_iff to from)) p q f g c k l o)))
