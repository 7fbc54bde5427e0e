-- ===== src/Smr/I64.antt =====
-- `i64` as the 64 bits that represent it: from 2^63 on a number is negative.
use rabia.Base.{
  ℕ, ◌⊎◌, ◌+◌, ◌-◌, ◌%◌, ◌≤◌, ◌<◌, ◌≡◌, ◌↔◌, Bool, true, not, ◌&&◌, Option, none, some, leb, ltb,
  arith, u64_mod, if◌then◌else◌, if_all,
}

abbrev pub I64 : Type 0
I64 = ℕ

-- 2^63
abbrev pub i64_half : ℕ
i64_half = 9223372036854775808

abbrev pub is_negative : I64 → Bool
is_negative a = leb i64_half a

-- `a < b` on signed numbers.
abbrev pub less : I64 → I64 → Bool
less a b = ltb ((a + i64_half) % u64_mod) ((b + i64_half) % u64_mod)

abbrev pub wrapping_add : I64 → I64 → I64
wrapping_add a b = (a + b) % u64_mod

abbrev pub wrapping_sub : I64 → I64 → I64
wrapping_sub a b = (a + (u64_mod - b)) % u64_mod

abbrev pub same_sign : I64 → I64 → Bool
same_sign a b = if is_negative a then is_negative b else not (is_negative b)

-- The sum of two numbers of one sign has that sign, or has overflowed.
unfoldable pub checked_add : I64 → I64 → Option I64
checked_add a b =
    if same_sign a b && not (same_sign a (wrapping_add a b)) then none else some (wrapping_add a b)

unfoldable pub checked_sub : I64 → I64 → Option I64
checked_sub a b =
    if not (same_sign a b) && not (same_sign a (wrapping_sub a b))
    then none
    else some (wrapping_sub a b)

pub less_positive : (a b : ℕ) → a < i64_half → b < i64_half → (less a b ≡ true) ↔ (a < b)
less_positive a b h k = (λ p. ground arith, λ p. ground arith)

pub checked_add_positive :
    (a b : ℕ)
    → a < i64_half
    → b < i64_half
    → checked_add a b ≡ (if ltb (a + b) i64_half then some (a + b) else none)
unfolding checked_add
checked_add_positive a b h k = ground arith

-- The number and 2^63, which is not negative and keeps the order.
abbrev pub shifted : I64 → ℕ
shifted a = (a + i64_half) % u64_mod

-- What an operation on shifted numbers returns: the shifted `y - z` if that is in range, and nothing
-- otherwise.
abbrev pub IsExact : ℕ → ℕ → Option I64 → Type 0
IsExact y z (some c) = (c < u64_mod) × (shifted c + z ≡ y)
IsExact y z none = (y < z) ⊎ (u64_mod + z ≤ y)

pub checked_add-IsExact :
    (a b : ℕ)
    → a < u64_mod
    → b < u64_mod
    → IsExact (shifted a + shifted b) i64_half (checked_add a b)
unfolding checked_add
checked_add-IsExact a b h k =
    if_all (λ r. IsExact (shifted a + shifted b) i64_half r)
      (same_sign a b && not (same_sign a (wrapping_add a b))) _ _ (λ p. ground arith)
      (λ p. ground arith)

pub checked_sub-IsExact :
    (a b : ℕ)
    → a < u64_mod
    → b < u64_mod
    → IsExact (shifted a + i64_half) (shifted b) (checked_sub a b)
unfolding checked_sub
checked_sub-IsExact a b h k =
    if_all (λ r. IsExact (shifted a + i64_half) (shifted b) r)
      (not (same_sign a b) && not (same_sign a (wrapping_sub a b))) _ _ (λ p. ground arith)
      (λ p. ground arith)
