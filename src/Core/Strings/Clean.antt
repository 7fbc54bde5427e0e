-- ===== src/Core/Strings/Clean.antt =====
-- The strings that the pool of rabia-core/src/memory_pool.rs keeps.
use rabia.Base.{
  ℕ, ◌≤◌, ◌≡◌, refl, Bool, true, false, List, [], ◌∷◌, ◌++◌, ltb, length, All, arith, if_all,
  length-append,
}
use rabia.Core.Pool.{Buffer, front_or_new, rest_of, cleared}
use rabia.Core.Strings.{
  StringPool, PooledString, strings, set_strings, string_capacity, get_string, drop_string,
}

-- At most as many strings as the pool may keep, all empty.
abbrev pub IsCleanQueue : ℕ → List Buffer → Type 0
IsCleanQueue n q = (length q ≤ n) × All (λ b. b.contents ≡ []) q

pub record IsClean (p : StringPool) : Type 0 where
  pub small_clean : IsCleanQueue p.max_pool_size p.small_strings
  pub large_clean : IsCleanQueue p.max_pool_size p.large_strings

strings-clean : (b : Bool) (p : StringPool) → IsClean p → IsCleanQueue p.max_pool_size (strings b p)
strings-clean true p h = h.large_clean
strings-clean false p h = h.small_clean

set_strings-IsClean :
    (b : Bool) (q : List Buffer) (p : StringPool)
    → IsCleanQueue p.max_pool_size q
    → IsClean p
    → IsClean (set_strings b q p)
set_strings-IsClean true q p c h = record { small_clean = h.small_clean; large_clean = c }
set_strings-IsClean false q p c h = record { small_clean = c; large_clean = h.large_clean }

rest_of-clean : (n : ℕ) (q : List Buffer) → IsCleanQueue n q → IsCleanQueue n (rest_of q)
rest_of-clean n [] h = h
rest_of-clean n (b ∷ q) h = (omega (arith, h.0), h.1.1)

front_empty :
    (allocate : ℕ → ℕ) (n k : ℕ) (q : List Buffer)
    → IsCleanQueue n q
    → (front_or_new allocate k q).contents ≡ []
front_empty allocate n k [] h = refl
front_empty allocate n k (b ∷ q) h = h.1.0

append-All :
    (q : List Buffer) (b : Buffer)
    → All (λ b. b.contents ≡ []) q
    → b.contents ≡ []
    → All (λ b. b.contents ≡ []) (q ++ b ∷ [])
append-All [] b h e = (e, tt)
append-All (c ∷ q) b h e = (h.0, append-All q b h.1 e)

-- A clean pool hands out an empty string, and stays clean.
pub get_string-IsClean :
    (allocate : ℕ → ℕ) (n : ℕ) (p : StringPool)
    → IsClean p
    → let r = get_string allocate n p in (r.0.string.contents ≡ []) × IsClean r.1
unfolding get_string
get_string-IsClean allocate n p h =
    let b = ltb 256 n in
    (
      front_empty allocate p.max_pool_size (string_capacity b n) (strings b p)
          (strings-clean b p h),
      set_strings-IsClean b (rest_of (strings b p)) p
          (rest_of-clean p.max_pool_size (strings b p) (strings-clean b p h)) h,
    )

-- A string that is dropped leaves the pool clean, whatever was written into it.
pub drop_string-IsClean :
    (s : PooledString) (p : StringPool)
    → s.max_pool_size ≡ p.max_pool_size
    → IsClean p
    → IsClean (drop_string s p)
unfolding drop_string
drop_string-IsClean s p e h =
    let q = strings s.is_large p in
    let c = strings-clean s.is_large p h in
    if_all IsClean (ltb (length q) s.max_pool_size) _ _
      (λ room.
        set_strings-IsClean s.is_large (q ++ cleared s.string ∷ []) p
          (
            ground (arith, room, e, length-append q (cleared s.string ∷ [])),
            append-All q (cleared s.string) c.1 refl,
          )
          h)
      (λ _. h)
