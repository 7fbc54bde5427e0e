-- ===== src/Smr/Kv/Alike.antt =====
-- Two stores of examples/kvstore_smr that hold the same values, whatever their times and versions.
use rabia.Base.{
  suc, ◌+◌, ◌≡◌, refl, sym, ap, ◌∙◌, Bool, true, false, [], ◌∷◌, Option, none, some, is_some,
  length, arith, if◌then◌else◌,
}
use rabia.Base.Dict
use rabia.Base.Dict.{
  Dict, text_key, bytes_eq, contains_key, insert, remove, update, NoRepeat, get-insert, get-remove,
  get-update, length-insert, length-remove, length-update, contains-get, get-absent,
  contains-insert, insert-NoRepeat, remove-NoRepeat, update-NoRepeat,
}
use rabia.Base.Text.{Str}
use rabia.Kvstore.Store.{ValueEntry, KvStore, value_of, load_all}
use rabia.Kvstore.Store.Invariant.{SameEntries}
use rabia.Kvstore.Store.Snapshot.{get-load_all}

-- The same value under every key, and no key twice.
pub record SameValues (d e : Dict Str ValueEntry) : Type 0 where
  pub values : (k : Str) → value_of (Dict.get k d) ≡ value_of (Dict.get k e)
  pub sizes : length d ≡ length e
  pub distinct : NoRepeat d
  pub distinct_too : NoRepeat e

is_some-value_of : (o : Option ValueEntry) → is_some (value_of o) ≡ is_some o
is_some-value_of none = refl
is_some-value_of (some e) = refl

-- A key stands in both or in neither.
pub same_keys :
    (d e : Dict Str ValueEntry) (k : Str)
    → value_of (Dict.get k d) ≡ value_of (Dict.get k e)
    → contains_key k d ≡ contains_key k e
same_keys d e k h =
    contains-get k d
    ∙ sym (is_some-value_of (Dict.get k d))
    ∙ ap is_some h
    ∙ is_some-value_of (Dict.get k e)
    ∙ sym (contains-get k e)

pub insert-SameValues :
    (k : Str) (v w : ValueEntry) (d e : Dict Str ValueEntry)
    → v.value ≡ w.value
    → SameValues d e
    → SameValues (insert k v d) (insert k w e)
insert-SameValues k v w d e q h = record {
  values = λ j. ground (arith, get-insert k j v d, get-insert k j w e, h.values j);
  sizes =
      ground
        (arith, length-insert k v d, length-insert k w e, same_keys d e k (h.values k), h.sizes);
  distinct = insert-NoRepeat k v d h.distinct;
  distinct_too = insert-NoRepeat k w e h.distinct_too;
}

abbrev changed : (ValueEntry → ValueEntry) → Option ValueEntry → Option ValueEntry
changed f o = elim o [ none ↦ none | some v ↦ some (f v) ]

changed-same :
    (f g : ValueEntry → ValueEntry) (o p : Option ValueEntry)
    → ((a b : ValueEntry) → (f a).value ≡ (g b).value)
    → value_of o ≡ value_of p
    → value_of (changed f o) ≡ value_of (changed g p)
changed-same f g none none q h = refl
changed-same f g none (some b) q h = absurd (cc h)
changed-same f g (some a) none q h = absurd (cc h)
changed-same f g (some a) (some b) q h = ap some (q a b)

if_same :
    (b : Bool) (o p o' p' : Option ValueEntry)
    → value_of o ≡ value_of p
    → value_of o' ≡ value_of p'
    → value_of (if b then o else o') ≡ value_of (if b then p else p')
if_same true o p o' p' h h' = h
if_same false o p o' p' h h' = h'

pub update-SameValues :
    (k : Str) (f g : ValueEntry → ValueEntry) (d e : Dict Str ValueEntry)
    → ((a b : ValueEntry) → (f a).value ≡ (g b).value)
    → SameValues d e
    → SameValues (update k f d) (update k g e)
update-SameValues k f g d e q h = record {
  values = λ j.
      let same = changed-same f g (Dict.get k d) (Dict.get k e) q (h.values k) in
      ap value_of (get-update k j f d)
      ∙ if_same (bytes_eq j k) (changed f (Dict.get k d)) (changed g (Dict.get k e)) (Dict.get j d)
          (Dict.get j e) same (h.values j)
      ∙ sym (ap value_of (get-update k j g e));
  sizes = omega (arith, length-update k f d, length-update k g e, h.sizes);
  distinct = update-NoRepeat k f d h.distinct;
  distinct_too = update-NoRepeat k g e h.distinct_too;
}

pub remove-SameValues :
    (k : Str) (d e : Dict Str ValueEntry) → SameValues d e → SameValues (remove k d) (remove k e)
remove-SameValues k d e h = record {
  values =
      λ j. ground (arith, get-remove k j d h.distinct, get-remove k j e h.distinct_too, h.values j);
  sizes =
      ground (arith, length-remove k d, length-remove k e, same_keys d e k (h.values k), h.sizes);
  distinct = remove-NoRepeat k d h.distinct;
  distinct_too = remove-NoRepeat k e h.distinct_too;
}

pub record Alike (s t : KvStore) : Type 0 where
  pub same_config : t.config ≡ s.config
  pub same_values : SameValues s.entries t.entries

length-load_all :
    (d acc : Dict Str ValueEntry)
    → NoRepeat d
    → ((k : Str) → contains_key k d ≡ true → contains_key k acc ≡ false)
    → length (load_all d acc) ≡ length d + length acc
length-load_all [] acc h f = omega arith
length-load_all ((i, e) ∷ d) acc h f =
    let fresh : contains_key i acc ≡ false = f i (ground (arith, text_key.same_iff i i)) in
    let grown : length (insert i e acc) ≡ suc (length acc) =
      length-insert i e acc ∙ ap (λ b. if b then length acc else suc (length acc)) fresh in
    omega (
      arith,
      grown,
      length-load_all d (insert i e acc) h.1 (apart i e d acc h.0 (λ k q. f k (ground (arith, q)))),
    )
  where
    apart :
        (i : Str) (e : ValueEntry) (d acc : Dict Str ValueEntry)
        → contains_key i d ≡ false
        → ((k : Str) → contains_key k d ≡ true → contains_key k acc ≡ false)
        → (k : Str) → contains_key k d ≡ true
        → contains_key k (insert i e acc) ≡ false
    apart i e d acc h f k q =
        let other : bytes_eq k i ≡ true → contains_key k d ≡ contains_key i d =
          λ p. ap (λ j. contains_key j d) ((text_key.same_iff k i).0 p) in
        ground (arith, contains-insert i k e acc, f k q, other)

load_all-NoRepeat : (d acc : Dict Str ValueEntry) → NoRepeat acc → NoRepeat (load_all d acc)
load_all-NoRepeat [] acc h = h
load_all-NoRepeat ((i, e) ∷ d) acc h =
    load_all-NoRepeat d (insert i e acc) (insert-NoRepeat i e acc h)

-- What is loaded are the same values.
pub load_all-SameValues : (d : Dict Str ValueEntry) → NoRepeat d → SameValues d (load_all d [])
load_all-SameValues d h = record {
  values = λ k. ap value_of (ground (arith, get-load_all k d [] h, get-absent k d));
  sizes = omega (arith, length-load_all d [] h (λ k q. refl));
  distinct = h;
  distinct_too = load_all-NoRepeat d [] tt;
}

-- Two runs that end alike: equal results, and stores that are alike.
pub record Agree {R : Type 0} (r q : R × KvStore) : Type 0 where
  pub same_result : r.0 ≡ q.0
  pub alike : Alike r.1 q.1

pub Alike-SameEntries :
    (s s' t t' : KvStore) → SameEntries s s' → SameEntries t t' → Alike s t → Alike s' t'
Alike-SameEntries s s' t t' h g a = record {
  same_config = g.config_same ∙ a.same_config ∙ sym h.config_same;
  same_values = rw (h.entries_same, g.entries_same) a.same_values;
}
