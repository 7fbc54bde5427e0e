-- ===== src/Testing/Faults/Verdicts.antt =====
-- The verdicts of rabia-testing/src/fault_injection.rs.
use rabia.Base.{
  ℕ, ◌+◌, ◌-◌, ◌≤◌, ◌≡◌, refl, true, false, ◌&&◌, List, [], ◌∷◌, ◌==◌, ==_iff, max, min, All, arith,
}
use rabia.Testing.Faults.{
  all_committed, no_progress, eventual_consistency, ActualOutcome, all_b, max_of, min_from, min_of,
  same_positive, check_expected_outcome,
}

max_of-bounds : (xs : List ℕ) → All (λ x. x ≤ max_of xs) xs
max_of-bounds [] = tt
max_of-bounds (x ∷ xs) = (ground arith, raise xs (max_of xs) (ground arith) (max_of-bounds xs))
  where
    raise :
        (ys : List ℕ) (n : ℕ)
        → n ≤ max x (max_of xs)
        → All (λ y. y ≤ n) ys
        → All (λ y. y ≤ max x (max_of xs)) ys
    raise [] n h a = tt
    raise (y ∷ ys) n h a = (omega (arith, h, a.0), raise ys n h a.1)

min_from-bounds : (x : ℕ) (xs : List ℕ) → (min_from x xs ≤ x) × All (λ y. min_from x xs ≤ y) xs
min_from-bounds x [] = (omega arith, tt)
min_from-bounds x (y ∷ ys) =
    let h = min_from-bounds (min x y) ys in (ground (arith, h.0), (ground (arith, h.0), h.1))

min_of-bounds : (xs : List ℕ) → All (λ y. min_of xs ≤ y) xs
min_of-bounds [] = tt
min_of-bounds (x ∷ xs) = min_from-bounds x xs

abbrev pub WithinTwo : ℕ → ℕ → Type 0
WithinTwo x y = (x ≤ y + 2) × (y ≤ x + 2)

-- Any two of some numbers are within two.
abbrev pub AllWithinTwo : List ℕ → Type 0
AllWithinTwo xs = All (λ x. All (λ y. WithinTwo x y) xs) xs

close :
    (low high : ℕ) (x : ℕ) (ys : List ℕ)
    → high - low ≤ 2
    → low ≤ x
    → x ≤ high
    → All (λ y. y ≤ high) ys
    → All (λ y. low ≤ y) ys
    → All (λ y. WithinTwo x y) ys
close low high x [] h l u a b = tt
close low high x (y ∷ ys) h l u a b = (
  (omega (arith, h, l, u, a.0, b.0), omega (arith, h, l, u, a.0, b.0)),
  close low high x ys h l u a.1 b.1,
)

pairs_close :
    (low high : ℕ) (xs ys : List ℕ)
    → high - low ≤ 2
    → All (λ y. y ≤ high) xs
    → All (λ y. low ≤ y) xs
    → All (λ y. y ≤ high) ys
    → All (λ y. low ≤ y) ys
    → All (λ x. All (λ y. WithinTwo x y) ys) xs
pairs_close low high [] ys h a b c d = tt
pairs_close low high (x ∷ xs) ys h a b c d =
    (close low high x ys h b.0 a.0 c d, pairs_close low high xs ys h a.1 b.1 c d)

-- A scenario that is judged eventually consistent has every two of its nodes that answered within two
-- committed phases of each other.
pub eventual_consistency-AllWithinTwo :
    (actual : ActualOutcome)
    → check_expected_outcome eventual_consistency actual ≡ true
    → AllWithinTwo actual.committed_phases
unfolding check_expected_outcome
eventual_consistency-AllWithinTwo actual h =
    let xs = actual.committed_phases in
    pairs_close (min_of xs) (max_of xs) xs xs (ground (arith, h)) (max_of-bounds xs)
      (min_of-bounds xs) (max_of-bounds xs) (min_of-bounds xs)

-- No outcome is judged both as progress of all nodes and as none.
pub verdicts_differ :
    (actual : ActualOutcome)
    → (check_expected_outcome all_committed actual && check_expected_outcome no_progress actual)
      ≡ false
unfolding check_expected_outcome
verdicts_differ actual = go actual.committed_phases
  where
    go : (xs : List ℕ) → (same_positive xs && all_b (λ p. p == 0) xs) ≡ false
    go [] = refl
    go (x ∷ xs) = ground (arith, ==_iff x 0)
