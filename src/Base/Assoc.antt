-- ===== src/Base/Assoc.antt =====
-- `HashMap` and `DashMap` with numeric keys, as association lists. The order of the list stands
-- for the order of iteration.
use Prim.Native.Nat.{ℕ, suc, ◌+◌}
use mathlib.Core.Path.{◌≡◌, refl, ap}
use mathlib.Core.Logic.{inl, inr}
use mathlib.Core.Bool.{Bool, false, ◌||◌}
use mathlib.Core.Option.{Option, none, some}
use mathlib.Core.List.{List, [], ◌∷◌}
use native.Mathlib.Omega.{arith}
use rabia.Base.Tests.{◌==◌, if◌then◌else◌, is_some, Bool-cases, ==_iff}
use rabia.Base.Lists.{length}
use rabia.Base.NodeSet.{contains, Distinct}

abbrev pub Assoc {ℓ} : Type ℓ → Type ℓ
Assoc V = List (ℕ × V)

module _ {ℓ} {V : Type ℓ} where
  abbrev pub lookup : ℕ → Assoc V → Option V
  lookup k [] = none
  lookup k ((j, v) ∷ d) = if k == j then some v else lookup k d

  -- `insert` of a map: a present key gets the new value.
  abbrev pub insert : ℕ → V → Assoc V → Assoc V
  insert k v [] = (k, v) ∷ []
  insert k v ((j, w) ∷ d) = if k == j then (k, v) ∷ d else (j, w) ∷ insert k v d

  -- `remove` of a map.
  abbrev pub erase : ℕ → Assoc V → Assoc V
  erase k [] = []
  erase k ((j, w) ∷ d) = if k == j then d else (j, w) ∷ erase k d

  -- `get_mut` and an update in place.
  abbrev pub adjust : ℕ → (V → V) → Assoc V → Assoc V
  adjust k f [] = []
  adjust k f ((j, w) ∷ d) = if k == j then (j, f w) ∷ d else (j, w) ∷ adjust k f d

  -- `retain` of a map.
  abbrev pub retain : (ℕ → V → Bool) → Assoc V → Assoc V
  retain keep [] = []
  retain keep ((j, w) ∷ d) = if keep j w then (j, w) ∷ retain keep d else retain keep d

  -- How many entries `retain` drops.
  abbrev pub dropped : (ℕ → V → Bool) → Assoc V → ℕ
  dropped keep [] = 0
  dropped keep ((j, w) ∷ d) = if keep j w then dropped keep d else suc (dropped keep d)

  abbrev pub values : Assoc V → List V
  values [] = []
  values ((j, w) ∷ d) = w ∷ values d

  abbrev pub keys : Assoc V → List ℕ
  keys [] = []
  keys ((j, w) ∷ d) = j ∷ keys d

  pub lookup-insert :
      (k j : ℕ) (v : V) (d : Assoc V)
      → lookup j (insert k v d) ≡ (if j == k then some v else lookup j d)
  lookup-insert k j v [] = refl
  lookup-insert k j v (e ∷ d) = ground (arith, lookup-insert k j v d)

  pub lookup-adjust_ne :
      (k j : ℕ) (f : V → V) (d : Assoc V) → (j == k) ≡ false → lookup j (adjust k f d) ≡ lookup j d
  lookup-adjust_ne k j f [] h = refl
  lookup-adjust_ne k j f (e ∷ d) h = ground (arith, lookup-adjust_ne k j f d h)

  pub lookup-adjust-some :
      (k : ℕ) (f : V → V) (d : Assoc V) (v : V)
      → lookup k d ≡ some v
      → lookup k (adjust k f d) ≡ some (f v)
  lookup-adjust-some k f [] v h = ground arith
  lookup-adjust-some k f (e ∷ d) v h = ground (arith, lookup-adjust-some k f d v)

  pub adjust-none : (k : ℕ) (f : V → V) (d : Assoc V) → lookup k d ≡ none → adjust k f d ≡ d
  adjust-none k f [] h = refl
  adjust-none k f (e ∷ d) h = ground (arith, adjust-none k f d)

  pub lookup-eq-contains : (k : ℕ) (d : Assoc V) → is_some (lookup k d) ≡ contains k (keys d)
  lookup-eq-contains k [] = refl
  lookup-eq-contains k (e ∷ d) = ground (arith, lookup-eq-contains k d)

  pub contains-insert :
      (k j : ℕ) (v : V) (d : Assoc V)
      → contains j (keys (insert k v d)) ≡ (j == k) || contains j (keys d)
  contains-insert k j v [] = refl
  contains-insert k j v (e ∷ d) = ground (arith, contains-insert k j v d)

  pub keys-adjust : (k : ℕ) (f : V → V) (d : Assoc V) → keys (adjust k f d) ≡ keys d
  keys-adjust k f [] = refl
  keys-adjust k f (e ∷ d) = ground (arith, keys-adjust k f d)

  pub contains-retain :
      (keep : ℕ → V → Bool) (k : ℕ) (d : Assoc V)
      → contains k (keys d) ≡ false
      → contains k (keys (retain keep d)) ≡ false
  contains-retain keep k [] h = refl
  contains-retain keep k (e ∷ d) h = ground (arith, contains-retain keep k d)

  pub contains-erase :
      (k j : ℕ) (d : Assoc V) → contains j (keys d) ≡ false → contains j (keys (erase k d)) ≡ false
  contains-erase k j [] h = refl
  contains-erase k j (e ∷ d) h = ground (arith, contains-erase k j d)

  pub insert-Distinct :
      (k : ℕ) (v : V) (d : Assoc V) → Distinct (keys d) → Distinct (keys (insert k v d))
  insert-Distinct k v [] h = (refl, tt)
  insert-Distinct k v (e ∷ d) h =
      ground (arith, insert-Distinct k v d h.1, contains-insert k e.0 v d)

  pub erase-Distinct : (k : ℕ) (d : Assoc V) → Distinct (keys d) → Distinct (keys (erase k d))
  erase-Distinct k [] h = tt
  erase-Distinct k (e ∷ d) h = ground (arith, erase-Distinct k d h.1, contains-erase k e.0 d)

  pub retain-Distinct :
      (keep : ℕ → V → Bool) (d : Assoc V) → Distinct (keys d) → Distinct (keys (retain keep d))
  retain-Distinct keep [] h = tt
  retain-Distinct keep (e ∷ d) h =
      ground (arith, retain-Distinct keep d h.1, contains-retain keep e.0 d)

  pub lookup-erase_self : (k : ℕ) (d : Assoc V) → Distinct (keys d) → lookup k (erase k d) ≡ none
  lookup-erase_self k [] h = refl
  lookup-erase_self k (e ∷ d) h =
      ground (arith, lookup-erase_self k d h.1, lookup-eq-contains e.0 d)

  pub lookup-erase_ne :
      (k j : ℕ) (d : Assoc V) → (j == k) ≡ false → lookup j (erase k d) ≡ lookup j d
  lookup-erase_ne k j [] h = refl
  lookup-erase_ne k j (e ∷ d) h = ground (arith, lookup-erase_ne k j d h)

  pub length-retain :
      (keep : ℕ → V → Bool) (d : Assoc V) → length (retain keep d) + dropped keep d ≡ length d
  length-retain keep [] = omega arith
  length-retain keep (e ∷ d) = ground (arith, length-retain keep d)

  pub lookup-retain_key :
      (keep : ℕ → Bool) (k : ℕ) (d : Assoc V)
      → lookup k (retain (λ j _. keep j) d) ≡ (if keep k then lookup k d else none)
  lookup-retain_key keep k [] = ground arith
  lookup-retain_key keep k (e ∷ d) = elim (Bool-cases (k == e.0)) [
    | inl same ↦ ground (arith, ap keep ((==_iff k e.0).0 same), lookup-retain_key keep k d)
    | inr other ↦ ground (arith, lookup-retain_key keep k d)
  ]

  -- Every entry, key and value, satisfies a predicate.
  abbrev pub Entries {κ} : (ℕ → V → Type κ) → Assoc V → Type κ
  Entries P [] = Unit
  Entries P ((j, w) ∷ d) = P j w × Entries P d

module _ {ℓ κ} {V : Type ℓ} (P : ℕ → V → Type κ) where
  pub insert-Entries :
      (k : ℕ) (v : V) (d : Assoc V) → P k v → Entries P d → Entries P (insert k v d)
  insert-Entries k v [] p h = (p, tt)
  insert-Entries k v (e ∷ d) p h = ground (arith, insert-Entries k v d p h.1)

  pub erase-Entries : (k : ℕ) (d : Assoc V) → Entries P d → Entries P (erase k d)
  erase-Entries k [] h = tt
  erase-Entries k (e ∷ d) h = ground (arith, erase-Entries k d h.1)

  pub retain-Entries : (keep : ℕ → V → Bool) (d : Assoc V) → Entries P d → Entries P (retain keep d)
  retain-Entries keep [] h = tt
  retain-Entries keep (e ∷ d) h = ground (arith, retain-Entries keep d h.1)

  pub adjust-Entries :
      (k : ℕ) (f : V → V) (d : Assoc V)
      → ((j : ℕ) (w : V) → P j w → P j (f w))
      → Entries P d
      → Entries P (adjust k f d)
  adjust-Entries k f [] step h = tt
  adjust-Entries k f (e ∷ d) step h =
      ground (arith, step e.0 e.1 h.0, adjust-Entries k f d step h.1)

  pub lookup-Entries : (k : ℕ) (v : V) (d : Assoc V) → Entries P d → lookup k d ≡ some v → P k v
  lookup-Entries k v [] h e = absurd (cc)
  lookup-Entries k v (x ∷ d) h e = elim (Bool-cases (k == x.0)) [
    | inl same ↦
        let here : k ≡ x.0 = (==_iff k x.0).0 same in
        let found : v ≡ x.1 = ground arith in rw (here, found) h.0
    | inr other ↦ lookup-Entries k v d h.1 (ground arith)
  ]
