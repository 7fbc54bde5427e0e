-- ===== src/Engine/Leader/Order.antt =====
-- The sorted cluster view of rabia-engine/src/leader.rs: its members and its order.
use mathlib.Core.Path.{ap₂}
use rabia.Base.{◌<◌, ◌≡◌, refl, ◌∙◌, true, false, ◌||◌, List, [], ◌∷◌, arith, ◌==◌, All}
use rabia.Base.NodeSet.{contains, Distinct, Subset}
use rabia.Core.Types.{NodeId}
use rabia.Engine.Leader.{insert_sorted, sort}

-- Strictly ascending: sorted, and no node twice.
abbrev pub Ascending : List NodeId → Type 0
Ascending [] = Unit
Ascending (x ∷ xs) = All (λ y. x < y) xs × Ascending xs

contains-insert_sorted :
    (a n : NodeId) (xs : List NodeId) → contains a (insert_sorted n xs) ≡ (a == n) || contains a xs
unfolding insert_sorted
contains-insert_sorted a n [] = refl
contains-insert_sorted a n (x ∷ xs) = ground (arith, contains-insert_sorted a n xs)

-- Sorting keeps the members.
pub contains-sort : (a : NodeId) (xs : List NodeId) → contains a (sort xs) ≡ contains a xs
unfolding sort
contains-sort a [] = refl
contains-sort a (x ∷ xs) = ground (arith, contains-insert_sorted a x (sort xs), contains-sort a xs)

All-insert_sorted :
    (y n : NodeId) (xs : List NodeId)
    → y < n
    → All (λ z. y < z) xs
    → All (λ z. y < z) (insert_sorted n xs)
unfolding insert_sorted
All-insert_sorted y n [] h a = (h, tt)
All-insert_sorted y n (x ∷ xs) h a = ground (arith, All-insert_sorted y n xs h a.1)

All-above : (n x : NodeId) (xs : List NodeId) → n < x → All (λ z. x < z) xs → All (λ z. n < z) xs
All-above n x [] h a = tt
All-above n x (y ∷ xs) h a = (omega arith, All-above n x xs h a.1)

insert_sorted-Ascending :
    (n : NodeId) (xs : List NodeId)
    → contains n xs ≡ false
    → Ascending xs
    → Ascending (insert_sorted n xs)
unfolding insert_sorted
insert_sorted-Ascending n [] h a = (tt, tt)
insert_sorted-Ascending n (x ∷ xs) h a =
    ground (arith, All-above n x xs, insert_sorted-Ascending n xs, All-insert_sorted x n xs)

-- A sorted set ascends.
pub sort-Ascending : (xs : List NodeId) → Distinct xs → Ascending (sort xs)
unfolding sort
sort-Ascending [] d = tt
sort-Ascending (x ∷ xs) d =
    insert_sorted-Ascending x (sort xs) (contains-sort x xs ∙ d.0) (sort-Ascending xs d.1)

pub not-contains-above :
    (n : NodeId) (xs : List NodeId) → All (λ y. n < y) xs → contains n xs ≡ false
not-contains-above n [] h = refl
not-contains-above n (x ∷ xs) h = ground (arith, not-contains-above n xs h.1)

pub below_contained :
    (n m : NodeId) (xs : List NodeId) → All (λ y. n < y) xs → contains m xs ≡ true → n < m
below_contained n m [] h c = absurd (ground arith)
below_contained n m (x ∷ xs) h c = ground (arith, below_contained n m xs h.1)

heads_equal :
    (x y : NodeId) (xs ys : List NodeId)
    → Ascending (x ∷ xs)
    → Ascending (y ∷ ys)
    → contains x (y ∷ ys) ≡ true
    → contains y (x ∷ xs) ≡ true
    → x ≡ y
heads_equal x y xs ys a b s t =
    ground (arith, below_contained y x ys b.0, below_contained x y xs a.0)

tail_Subset :
    (x : NodeId) (xs ys : List NodeId)
    → Ascending (x ∷ xs)
    → Subset (x ∷ xs) (x ∷ ys)
    → Subset xs ys
tail_Subset x xs ys a s n h = ground (arith, s n, below_contained x n xs a.0 h)

-- Two ascending lists with the same members are the same list.
pub Ascending-unique :
    (xs ys : List NodeId) → Ascending xs → Ascending ys → Subset xs ys → Subset ys xs → xs ≡ ys
Ascending-unique [] [] a b s t = refl
Ascending-unique [] (y ∷ ys) a b s t = absurd (ground (arith, t y))
Ascending-unique (x ∷ xs) [] a b s t = absurd (ground (arith, s x))
Ascending-unique (x ∷ xs) (y ∷ ys) a b s t =
    let same : x ≡ y = heads_equal x y xs ys a b (s x (ground arith)) (t y (ground arith)) in
    ap₂ ◌∷◌ same (
      Ascending-unique xs ys a.1 b.1 (tail_Subset x xs ys a (rw (← same) at s))
        (tail_Subset y ys xs b (rw same at t)))
