-- ===== src/Core/Ids/Order.antt =====
-- Identifiers made of numbers, in rabia-core/src/types.rs.
use rabia.Base.{ℕ, ◌*◌, ◌<◌, ◌≡◌, arith}
use rabia.Core.Ids.{from_u32, from_u64}

-- An identifier made of a `u32` is the number four times over.
pub from_u32_value : (v : ℕ) → v < 4294967296 → from_u32 v ≡ v * 79228162532711081671548469249
unfolding from_u32
from_u32_value v h = omega arith

-- An identifier made of a `u64` is the number twice over.
pub from_u64_value : (v : ℕ) → v < 18446744073709551616 → from_u64 v ≡ v * 18446744073709551617
unfolding from_u64
from_u64_value v h = omega arith

-- Identifiers made of numbers are in the order of the numbers, so the leader is the smallest.
pub from_u64-order : (v w : ℕ) → w < 18446744073709551616 → v < w → from_u64 v < from_u64 w
from_u64-order v w h l = omega (arith, from_u64_value v (omega (arith, h, l)), from_u64_value w h)
