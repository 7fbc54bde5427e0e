-- ===== src/Core/Ids.antt =====
-- The identifiers that rabia-core/src/types.rs makes of numbers. A UUID is the number that its 16
-- bytes are, the first the highest.
pub mod Order
use rabia.Base.{ℕ, ◌+◌, ◌*◌, ◌/◌, ◌%◌, List, [], ◌∷◌, ◌++◌}
use rabia.Core.Types.{NodeId, Bytes}

abbrev pub from_bytes_after : ℕ → Bytes → ℕ
from_bytes_after n [] = n
from_bytes_after n (b ∷ bs) = from_bytes_after (n * 256 + b) bs

-- `Uuid::from_bytes`
abbrev pub uuid_from_bytes : Bytes → NodeId
uuid_from_bytes bs = from_bytes_after 0 bs

abbrev pub u32_bytes : ℕ → Bytes
u32_bytes v = v / 16777216 % 256 ∷ v / 65536 % 256 ∷ v / 256 % 256 ∷ v % 256 ∷ []

-- `From<u32>`: the four bytes, four times.
unfoldable pub from_u32 : ℕ → NodeId
from_u32 v = uuid_from_bytes (u32_bytes v ++ u32_bytes v ++ u32_bytes v ++ u32_bytes v)

abbrev pub u64_bytes : ℕ → Bytes
u64_bytes v = u32_bytes (v / 4294967296) ++ u32_bytes v

-- `From<u64>`: the eight bytes, twice.
unfoldable pub from_u64 : ℕ → NodeId
from_u64 v = uuid_from_bytes (u64_bytes v ++ u64_bytes v)
