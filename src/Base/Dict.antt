-- ===== src/Base/Dict.antt =====
-- `HashMap` and `DashMap` with keys of any type that has an equality test, as association lists.
-- The order of the list stands for the order of iteration.
use Prim.Native.Nat.{ℕ, suc}
use mathlib.Core.Path.{◌≡◌, refl}
use mathlib.Core.Logic.{◌↔◌}
use mathlib.Core.Bool.{Bool, true, false, ◌&&◌, ◌||◌}
use mathlib.Core.Option.{Option, none, some}
use mathlib.Core.List.{List, [], ◌∷◌}
use native.Mathlib.Omega.{arith}
use rabia.Base.Tests.{◌==◌, ==_iff, if◌then◌else◌, is_some}
use rabia.Base.Lists.{length}

-- The interface of a key: a test that decides equality.
pub record Key {ℓ} (K : Type ℓ) : Type ℓ where
  pub same : K → K → Bool
  pub same_iff : (a b : K) → (same a b ≡ true) ↔ (a ≡ b)

instance abbrev pub nat_key : Key ℕ
nat_key = record { same = ◌==◌; same_iff = ==_iff }

abbrev pub bytes_eq : List ℕ → List ℕ → Bool
bytes_eq [] [] = true
bytes_eq (a ∷ xs) (b ∷ bs) = a == b && bytes_eq xs bs
bytes_eq _ _ = false

pub bytes_eq_iff : (s t : List ℕ) → (bytes_eq s t ≡ true) ↔ (s ≡ t)
bytes_eq_iff [] [] = (λ h. refl, λ h. refl)
bytes_eq_iff [] (b ∷ bs) = (λ h. absurd (cc), λ h. absurd (cc))
bytes_eq_iff (a ∷ xs) [] = (λ h. absurd (cc), λ h. absurd (cc))
bytes_eq_iff (a ∷ xs) (b ∷ bs) =
    let rest = bytes_eq_iff xs bs in (λ h. ground (arith, rest.0), λ h. ground (arith, rest.1))

-- Text is the list of its bytes.
instance abbrev pub text_key : Key (List ℕ)
text_key = record { same = bytes_eq; same_iff = bytes_eq_iff }

abbrev pub Dict {ℓ κ} : Type ℓ → Type κ → Type (ℓ ⊔ κ)
Dict K V = List (K × V)

module _ {ℓ κ} {K : Type ℓ} {V : Type κ} ⦃e : Key K⦄ where
  abbrev pub get : K → Dict K V → Option V
  get k [] = none
  get k ((j, v) ∷ d) = if e.same k j then some v else get k d

  abbrev pub contains_key : K → Dict K V → Bool
  contains_key k [] = false
  contains_key k ((j, v) ∷ d) = e.same k j || contains_key k d

  abbrev pub insert : K → V → Dict K V → Dict K V
  insert k v [] = (k, v) ∷ []
  insert k v ((j, w) ∷ d) = if e.same k j then (k, v) ∷ d else (j, w) ∷ insert k v d

  abbrev pub remove : K → Dict K V → Dict K V
  remove k [] = []
  remove k ((j, w) ∷ d) = if e.same k j then d else (j, w) ∷ remove k d

  -- A change in place, through `get_mut`.
  abbrev pub update : K → (V → V) → Dict K V → Dict K V
  update k f [] = []
  update k f ((j, w) ∷ d) = if e.same k j then (j, f w) ∷ d else (j, w) ∷ update k f d

  -- No key stands twice.
  abbrev pub NoRepeat : Dict K V → Type 0
  NoRepeat [] = Unit
  NoRepeat ((k, v) ∷ d) = (contains_key k d ≡ false) × NoRepeat d

  pub get-insert :
      (k j : K) (v : V) (d : Dict K V)
      → get j (insert k v d) ≡ (if e.same j k then some v else get j d)
  get-insert k j v [] = refl
  get-insert k j v ((i, w) ∷ d) =
      ground (arith, e.same_iff k i, e.same_iff j k, e.same_iff j i, get-insert k j v d)

  pub contains-insert :
      (k j : K) (v : V) (d : Dict K V)
      → contains_key j (insert k v d) ≡ e.same j k || contains_key j d
  contains-insert k j v [] = refl
  contains-insert k j v ((i, w) ∷ d) =
      ground (arith, e.same_iff k i, e.same_iff j k, e.same_iff j i, contains-insert k j v d)

  pub insert-NoRepeat : (k : K) (v : V) (d : Dict K V) → NoRepeat d → NoRepeat (insert k v d)
  insert-NoRepeat k v [] h = (refl, tt)
  insert-NoRepeat k v ((i, w) ∷ d) h =
      ground
        (arith, e.same_iff k i, e.same_iff i k, contains-insert k i v d, insert-NoRepeat k v d h.1)

  pub length-insert :
      (k : K) (v : V) (d : Dict K V)
      → length (insert k v d) ≡ (if contains_key k d then length d else suc (length d))
  length-insert k v [] = refl
  length-insert k v ((i, w) ∷ d) = ground (arith, length-insert k v d)

  pub contains-get : (k : K) (d : Dict K V) → contains_key k d ≡ is_some (get k d)
  contains-get k [] = refl
  contains-get k ((i, w) ∷ d) = ground (arith, contains-get k d)

  pub get-update :
      (k j : K) (f : V → V) (d : Dict K V)
      → get j (update k f d)
        ≡ (if e.same j k then elim (get k d) [ none ↦ none | some v ↦ some (f v) ] else get j d)
  get-update k j f [] = ground arith
  get-update k j f ((i, w) ∷ d) =
      ground (arith, e.same_iff k i, e.same_iff j k, e.same_iff j i, get-update k j f d)

  pub contains-update :
      (k j : K) (f : V → V) (d : Dict K V) → contains_key j (update k f d) ≡ contains_key j d
  contains-update k j f [] = refl
  contains-update k j f ((i, w) ∷ d) = ground (arith, contains-update k j f d)

  pub update-NoRepeat : (k : K) (f : V → V) (d : Dict K V) → NoRepeat d → NoRepeat (update k f d)
  update-NoRepeat k f [] h = tt
  update-NoRepeat k f ((i, w) ∷ d) h =
      ground (arith, contains-update k i f d, update-NoRepeat k f d h.1)

  pub length-update : (k : K) (f : V → V) (d : Dict K V) → length (update k f d) ≡ length d
  length-update k f [] = refl
  length-update k f ((i, w) ∷ d) = ground (arith, length-update k f d)

  pub contains-remove_other :
      (k j : K) (d : Dict K V) → contains_key j d ≡ false → contains_key j (remove k d) ≡ false
  contains-remove_other k j [] h = refl
  contains-remove_other k j ((i, w) ∷ d) h = ground (arith, contains-remove_other k j d)

  pub remove-NoRepeat : (k : K) (d : Dict K V) → NoRepeat d → NoRepeat (remove k d)
  remove-NoRepeat k [] h = tt
  remove-NoRepeat k ((i, w) ∷ d) h =
      ground (arith, contains-remove_other k i d, remove-NoRepeat k d h.1)

  pub get-absent : (k : K) (d : Dict K V) → contains_key k d ≡ false → get k d ≡ none
  get-absent k [] h = refl
  get-absent k ((i, w) ∷ d) h = ground (arith, get-absent k d)

  pub get-remove :
      (k j : K) (d : Dict K V)
      → NoRepeat d
      → get j (remove k d) ≡ (if e.same j k then none else get j d)
  get-remove k j [] h = ground arith
  get-remove k j ((i, w) ∷ d) h = ground (
    arith,
    e.same_iff k i,
    e.same_iff j k,
    e.same_iff j i,
    get-absent i d h.0,
    get-remove k j d h.1,
  )

  pub length-remove :
      (k : K) (d : Dict K V)
      → length d ≡ (if contains_key k d then suc (length (remove k d)) else length (remove k d))
  length-remove k [] = refl
  length-remove k ((i, w) ∷ d) = ground (arith, length-remove k d)

  -- Every entry satisfies the predicate.
  abbrev pub Entries {κ'} : (K → V → Type κ') → Dict K V → Type κ'
  Entries P [] = Unit
  Entries P ((k, v) ∷ d) = P k v × Entries P d

  pub insert-Entries {κ'} :
      (P : K → V → Type κ') (k : K) (v : V) (d : Dict K V)
      → P k v
      → Entries P d
      → Entries P (insert k v d)
  insert-Entries P k v [] p h = (p, tt)
  insert-Entries P k v ((i, w) ∷ d) p h = ground (arith, insert-Entries P k v d p h.1)

  pub remove-Entries {κ'} :
      (P : K → V → Type κ') (k : K) (d : Dict K V) → Entries P d → Entries P (remove k d)
  remove-Entries P k [] h = tt
  remove-Entries P k ((i, w) ∷ d) h = ground (arith, remove-Entries P k d h.1)

  pub update-Entries {κ'} :
      (P : K → V → Type κ') (k : K) (f : V → V) (d : Dict K V)
      → ((j : K) (v : V) → P j v → P j (f v))
      → Entries P d
      → Entries P (update k f d)
  update-Entries P k f [] g h = tt
  update-Entries P k f ((i, w) ∷ d) g h = ground (arith, g i w h.0, update-Entries P k f d g h.1)
