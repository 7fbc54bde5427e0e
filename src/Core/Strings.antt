-- ===== src/Core/Strings.antt =====
-- `StringPool` of rabia-core/src/memory_pool.rs. A `String` is a buffer of bytes; `allocate` is the
-- capacity that `String::with_capacity` gives.
pub mod Clean
use rabia.Base.{
  ℕ, ◌+◌, Bool, true, false, List, [], ◌∷◌, ◌++◌, leb, ltb, max, length, if◌then◌else◌,
}
use rabia.Core.Types.{Bytes}
use rabia.Core.Pool.{Buffer, front_or_new, rest_of, cleared}

pub record StringPool : Type 0 where
  pub small_strings : List Buffer
  pub large_strings : List Buffer
  pub max_pool_size : ℕ

-- `StringPool::new`; the default size is 50.
abbrev pub new_string_pool : ℕ → StringPool
new_string_pool n = record { small_strings = []; large_strings = []; max_pool_size = n }

pub record PooledString : Type 0 where
  pub string : Buffer
  pub is_large : Bool
  pub max_pool_size : ℕ

abbrev pub strings : Bool → StringPool → List Buffer
strings true p = p.large_strings
strings false p = p.small_strings

abbrev pub set_strings : Bool → List Buffer → StringPool → StringPool
set_strings true q p = record p { large_strings = q }
set_strings false q p = record p { small_strings = q }

abbrev pub string_capacity : Bool → ℕ → ℕ
string_capacity true min_capacity = max 1024 min_capacity
string_capacity false min_capacity = 256

abbrev pub get_string_from : (ℕ → ℕ) → Bool → ℕ → StringPool → PooledString × StringPool
get_string_from allocate is_large min_capacity p = (
  record {
    string = front_or_new allocate (string_capacity is_large min_capacity) (strings is_large p);
    is_large = is_large;
    max_pool_size = p.max_pool_size;
  },
  set_strings is_large (rest_of (strings is_large p)) p,
)

unfoldable pub get_string : (ℕ → ℕ) → ℕ → StringPool → PooledString × StringPool
get_string allocate min_capacity p = get_string_from allocate (ltb 256 min_capacity) min_capacity p

-- `push_str`, with the capacity that the string then has.
abbrev pub push_str : ℕ → Bytes → PooledString → PooledString
push_str capacity s p = record p {
  string = record { contents = p.string.contents ++ s; capacity = capacity };
}

abbrev pub clear_string : PooledString → PooledString
clear_string p = record p { string = cleared p.string }

-- It does not go back to the pool.
abbrev pub into_string : PooledString → Bytes
into_string p = p.string.contents

-- `Drop`, which does not look at the capacity.
unfoldable pub drop_string : PooledString → StringPool → StringPool
drop_string s p =
    if ltb (length (strings s.is_large p)) s.max_pool_size
    then set_strings s.is_large (strings s.is_large p ++ cleared s.string ∷ []) p
    else p
