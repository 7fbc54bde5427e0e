-- ===== src/Base/NodeSet.antt =====
-- `HashSet<NodeId>` as a list without repetition. The order of the list stands for the order in
-- which the set is iterated, which the program must not depend on.
use Prim.Native.Nat.{ℕ, ◌≤◌}
use mathlib.Core.Path.{◌≡◌, refl}
use mathlib.Core.Bool.{Bool, true, false, not, ◌&&◌, ◌||◌}
use mathlib.Core.List.{List, [], ◌∷◌, ◌++◌}
use native.Mathlib.Omega.{arith}
use rabia.Base.Tests.{◌==◌, if◌then◌else◌}
use rabia.Base.Lists.{length, count_if, filter_b}

abbrev pub NodeSet : Type 0
NodeSet = List ℕ

abbrev pub contains : ℕ → NodeSet → Bool
contains a [] = false
contains a (x ∷ xs) = a == x || contains a xs

-- `HashSet::insert`
abbrev pub insert : ℕ → NodeSet → NodeSet
insert a xs = if contains a xs then xs else xs ++ a ∷ []

-- `HashSet::remove`
abbrev pub remove : ℕ → NodeSet → NodeSet
remove a [] = []
remove a (x ∷ xs) = if a == x then xs else x ∷ remove a xs

-- `xs.difference(&ys)`
abbrev pub difference : NodeSet → NodeSet → NodeSet
difference xs ys = filter_b (λ x. not (contains x ys)) xs

abbrev pub contains_all : NodeSet → NodeSet → Bool
contains_all ys [] = true
contains_all ys (x ∷ xs) = contains x ys && contains_all ys xs

-- `HashSet::eq`: equal sizes, and every member of the one is in the other.
abbrev pub set_eq : NodeSet → NodeSet → Bool
set_eq xs ys = length xs == length ys && contains_all ys xs

-- No node stands twice in the list.
abbrev pub Distinct : List ℕ → Type 0
Distinct [] = Unit
Distinct (x ∷ xs) = (contains x xs ≡ false) × Distinct xs

-- Every member of the one is a member of the other.
abbrev pub Subset : List ℕ → List ℕ → Type 0
Subset xs ys = (a : ℕ) → contains a xs ≡ true → contains a ys ≡ true

pub contains-append :
    (a : ℕ) (xs ys : List ℕ) → contains a (xs ++ ys) ≡ contains a xs || contains a ys
contains-append a [] ys = refl
contains-append a (x ∷ xs) ys = ground (arith, contains-append a xs ys)

pub contains-remove_ne :
    (a b : ℕ) (xs : List ℕ) → contains b (remove a xs) ≡ true → contains b xs ≡ true
contains-remove_ne a b [] h = h
contains-remove_ne a b (x ∷ xs) h = ground (arith, contains-remove_ne a b xs)

pub contains-remove_other :
    (a b : ℕ) (xs : List ℕ) → (a == b) ≡ false → contains b (remove a xs) ≡ contains b xs
contains-remove_other a b [] h = refl
contains-remove_other a b (x ∷ xs) h = ground (arith, contains-remove_other a b xs h)

pub remove-Distinct : (a : ℕ) (xs : List ℕ) → Distinct xs → Distinct (remove a xs)
remove-Distinct a [] d = tt
remove-Distinct a (x ∷ xs) d = ground (arith, remove-Distinct a xs d.1, contains-remove_ne a x xs)

pub contains-remove_self : (a : ℕ) (xs : List ℕ) → Distinct xs → contains a (remove a xs) ≡ false
contains-remove_self a [] d = refl
contains-remove_self a (x ∷ xs) d = ground (arith, contains-remove_self a xs d.1)

pub snoc-Distinct :
    (a : ℕ) (xs : List ℕ) → contains a xs ≡ false → Distinct xs → Distinct (xs ++ a ∷ [])
snoc-Distinct a [] h d = (refl, tt)
snoc-Distinct a (x ∷ xs) h d = ground (arith, snoc-Distinct a xs, contains-append x xs (a ∷ []))

pub insert-Distinct : (a : ℕ) (xs : List ℕ) → Distinct xs → Distinct (insert a xs)
insert-Distinct a xs d = ground (arith, snoc-Distinct a xs)

pub count_if-remove :
    (p : ℕ → Bool) (a : ℕ) (xs : List ℕ)
    → contains a xs ≡ true
    → count_if p xs ≡ count_if p (a ∷ remove a xs)
count_if-remove p a [] h = ground arith
count_if-remove p a (x ∷ xs) h = ground (arith, count_if-remove p a xs)

-- A set has no more members that pass a test than a set around it.
pub count_if-Subset :
    (p : ℕ → Bool) (xs ys : List ℕ) → Distinct xs → Subset xs ys → count_if p xs ≤ count_if p ys
count_if-Subset p [] ys d s = omega arith
count_if-Subset p (x ∷ xs) ys d s = ground (
  arith,
  count_if-remove p x ys (s x (ground arith)),
  count_if-Subset p xs (remove x ys) d.1 rest,
)
  where
    rest : Subset xs (remove x ys)
    rest a h = ground (arith, s a, contains-remove_other x a ys)
