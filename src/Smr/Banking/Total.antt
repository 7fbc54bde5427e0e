-- ===== src/Smr/Banking/Total.antt =====
-- The money in the accounts of examples/banking_smr/src/lib.rs, summed up without a bound, and how
-- the changes of one account move it.
use rabia.Base.{ℕ, ◌+◌, ◌≤◌, ◌<◌, ◌≡◌, false, some, [], ◌∷◌, arith}
use rabia.Base.Dict
use rabia.Base.Dict.{
  Dict, text_key, bytes_eq_iff, contains_key, insert, update, NoRepeat, Entries, insert-NoRepeat,
  update-NoRepeat, insert-Entries, update-Entries,
}
use rabia.Base.Text.{Str}
use rabia.Smr.Banking.{Account, BankingSmr, update_balance}
use rabia.Smr.I64.{I64, i64_half}

abbrev pub total : Dict Str Account → ℕ
total [] = 0
total ((k, a) ∷ d) = a.balance + total d

-- An account stands under its own identifier, and its balance is not negative.
abbrev pub IsSolvent : Str → Account → Type 0
IsSolvent k a = (a.account_id ≡ k) × (a.balance < i64_half)

abbrev pub IsSound : BankingSmr → Type 0
IsSound s = NoRepeat s.state.accounts × Entries IsSolvent s.state.accounts

pub total-insert :
    (k : Str) (a : Account) (d : Dict Str Account)
    → contains_key k d ≡ false
    → total (insert k a d) ≡ total d + a.balance
total-insert k a [] h = ground arith
total-insert k a ((j, b) ∷ d) h = ground (arith, total-insert k a d)

pub total-update :
    (k : Str) (now : ℕ) (b : I64) (a : Account) (d : Dict Str Account)
    → Dict.get k d ≡ some a
    → total (update k (update_balance now b) d) + a.balance ≡ total d + b
total-update k now b a [] h = absurd (cc h)
total-update k now b a ((j, c) ∷ d) h = ground (arith, total-update k now b a d)

pub balance_le_total :
    (k : Str) (a : Account) (d : Dict Str Account) → Dict.get k d ≡ some a → a.balance ≤ total d
balance_le_total k a [] h = absurd (cc h)
balance_le_total k a ((j, c) ∷ d) h = ground (arith, balance_le_total k a d)

pub get-IsSolvent :
    (k : Str) (a : Account) (d : Dict Str Account)
    → Entries IsSolvent d
    → Dict.get k d ≡ some a
    → IsSolvent k a
get-IsSolvent k a [] h g = absurd (cc g)
get-IsSolvent k a ((j, c) ∷ d) h g = ground (arith, bytes_eq_iff k j, get-IsSolvent k a d h.1)

pub update-IsSolvent :
    (k : Str) (now : ℕ) (b : I64) (d : Dict Str Account)
    → b < i64_half
    → Entries IsSolvent d
    → Entries IsSolvent (update k (update_balance now b) d)
update-IsSolvent k now b d p h = update-Entries IsSolvent k _ d (λ j a q. (q.0, p)) h
