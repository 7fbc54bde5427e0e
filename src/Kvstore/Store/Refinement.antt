-- ===== src/Kvstore/Store/Refinement.antt =====
-- The store of rabia-kvstore/src/store.rs as a function from keys to values.
use mathlib.Core.Path.{fun_ext, subst}
use rabia.Base.{
  ℕ, suc, ◌+◌, ◌≤◌, ◌<◌, ◌≡◌, refl, sym, ap, ◌∙◌, List, [], ◌∷◌, Option, none, some, length, arith,
  if◌then◌else◌, is_some, leb, if_all, All, is_empty-eq,
}
use rabia.Base.Dict
use rabia.Base.Dict.{
  text_key, bytes_eq, NoRepeat, insert, remove, update, get-insert, get-remove, get-update,
  length-insert, length-remove, length-update, contains-get,
}
use rabia.Base.Text.{Str}
use rabia.Kvstore.Operations.{
  KvOperation, set, get, delete, exists, KvResult, success, not_found, StoreResult, ok, err,
}
use rabia.Kvstore.Notifications.{ChangeType}
use rabia.Kvstore.Store.{
  KvStoreConfig, ValueEntry, new_entry, update_entry, KvStore, validate_key, validate_value,
  increment_operation_count, value_of, notify, set_entry, set_key, get_key, delete_key,
  finish_delete, key_exists, apply_one, apply_batch, and_more,
}
use rabia.Kvstore.Store.Invariant.{IsValid, notify-SameEntries, apply_one-IsValid}

-- What the users of a store see of it.
abbrev pub View : Type 0
View = Str → Option Str

abbrev pub view : KvStore → View
view s k = value_of (Dict.get k s.entries)

abbrev pub write : Str → Option Str → View → View
write k v f j = if bytes_eq j k then v else f j

abbrev pub answer : Option Str → KvResult
answer v = if is_some v then success else not_found

-- An operation on such a function, and a sequence of them.
abbrev pub spec_one : KvOperation → View → KvResult × View
spec_one (set k v) f = (success, write k (some v) f)
spec_one (get k) f = (answer (f k), f)
spec_one (delete k) f = (answer (f k), write k none f)
spec_one (exists k) f = (answer (f k), f)

abbrev pub spec_all : List KvOperation → View → List KvResult × View
spec_all [] f = ([], f)
spec_all (op ∷ ops) f = let (r, g) = spec_one op f in let (rs, h) = spec_all ops g in (r ∷ rs, h)

-- An operation that passes the checks of the configuration.
abbrev pub IsAllowed : KvStoreConfig → KvOperation → Type 0
IsAllowed c (set k v) = (0 < length k) × (length k ≤ 256) × (length v ≤ c.max_value_size)
IsAllowed c (get k) = (0 < length k) × (length k ≤ 256)
IsAllowed c (delete k) = (0 < length k) × (length k ≤ 256)
IsAllowed c (exists k) = (0 < length k) × (length k ≤ 256)

-- A run of an operation that does what the specification says, and makes at most one entry.
record Does (s : KvStore) (r : StoreResult KvResult × KvStore) (spec : KvResult × View)
    : Type 0 where
  result : r.0 ≡ ok spec.0
  seen : (k : Str) → view r.1 k ≡ spec.1 k
  grown : length r.1.entries ≤ suc (length s.entries)
  config_same : r.1.config ≡ s.config

validate_key-passes : (k : Str) → 0 < length k → length k ≤ 256 → validate_key k ≡ ok tt
unfolding validate_key
validate_key-passes k a b = let nonempty = is_empty-eq k in ground arith

validate_value-passes :
    (v : Str) (s : KvStore) → length v ≤ s.config.max_value_size → validate_value v s ≡ ok tt
unfolding validate_value
validate_value-passes v s h = ground arith

module _ (clock : ℕ → ℕ) where
  finish-Does :
      (k : Str) (t : ChangeType) (old new : Option Str) (s u : KvStore) (answered : KvResult)
      (f : View)
      → ((j : Str) → view u j ≡ f j)
      → length u.entries ≤ suc (length s.entries)
      → u.config ≡ s.config
      → Does s (ok answered, notify clock k t old new u) (answered, f)
  finish-Does k t old new s u answered f h g c =
      let same = notify-SameEntries clock k t old new u in
      record {
        result = refl;
        seen = λ j. ap (λ d. value_of (Dict.get j d)) same.entries_same ∙ h j;
        grown = rw same.entries_same g;
        config_same = same.config_same ∙ c;
      }

  set_entry-Does :
      (o : Option ValueEntry) (k v : Str) (s : KvStore)
      → Dict.get k s.entries ≡ o
      → length s.entries < s.config.max_keys
      → Does s (set_entry clock o k v s) (spec_one (set k v) (view s))
  unfolding increment_operation_count
  set_entry-Does (some e) k v s q room =
      let touch = update_entry (clock s.asked) v in
      finish-Does k _ _ _ s _ success (write k (some v) (view s))
        (λ j. ground (arith, get-update k j touch s.entries))
        (omega (arith, length-update k touch s.entries)) refl
  set_entry-Does none k v s q room =
      let fresh = new_entry (clock s.asked) v in
      if_all (λ (r : StoreResult KvResult × KvStore). Does s r (spec_one (set k v) (view s)))
        (leb s.config.max_keys (length s.entries)) _ _ (λ full. absurd (ground arith))
        λ free.
          finish-Does k _ _ _ s _ success (write k (some v) (view s))
            (λ j. ground (arith, get-insert k j fresh s.entries))
            (ground (arith, length-insert k fresh s.entries)) refl

  set_key-Does :
      (k v : Str) (s : KvStore)
      → IsAllowed s.config (set k v)
      → length s.entries < s.config.max_keys
      → Does s (set_key clock k v s) (spec_one (set k v) (view s))
  unfolding set_key
  set_key-Does k v s a room =
      rw (validate_key-passes k a.0 a.1, validate_value-passes v s a.2)
        (set_entry-Does (Dict.get k s.entries) k v s refl room)

  delete_key-Does :
      (o : Option Str) (k : Str) (s : KvStore)
      → value_of (Dict.get k s.entries) ≡ o
      → NoRepeat s.entries
      → Does s
          (finish_delete clock k o
            (increment_operation_count (record s { entries = remove k s.entries })))
          (answer o, write k none (view s))
  unfolding increment_operation_count
  delete_key-Does (some old) k s q v =
      finish-Does k _ _ _ s _ success (write k none (view s))
        (λ j. ground (arith, get-remove k j s.entries v))
        (ground (arith, length-remove k s.entries)) refl
  delete_key-Does none k s q v = record {
    result = refl;
    seen = λ j. ground (arith, get-remove k j s.entries v);
    grown = ground (arith, length-remove k s.entries);
    config_same = refl;
  }

  apply_one-Does :
      (op : KvOperation) (s : KvStore)
      → IsAllowed s.config op
      → NoRepeat s.entries
      → length s.entries < s.config.max_keys
      → Does s (apply_one clock op s) (spec_one op (view s))
  unfolding apply_one delete_key get_key key_exists increment_operation_count
  apply_one-Does (set k x) s a v room = set_key-Does k x s a room
  apply_one-Does (delete k) s a v room =
      rw (validate_key-passes k a.0 a.1)
        (delete_key-Does (value_of (Dict.get k s.entries)) k s refl v)
  apply_one-Does (get k) s a v room =
      rw (validate_key-passes k a.0 a.1)
        (record { result = refl; seen = λ j. refl; grown = omega arith; config_same = refl })
  apply_one-Does (exists k) s a v room = rw (validate_key-passes k a.0 a.1) (record {
    result = ground (arith, contains-get k s.entries);
    seen = λ j. refl;
    grown = omega arith;
    config_same = refl;
  })

abbrev pub AllAllowed : KvStoreConfig → List KvOperation → Type 0
AllAllowed c = All (IsAllowed c)

and_more-ok :
    (r : StoreResult KvResult) (s : KvStore) (rest : StoreResult (List KvResult) × KvStore)
    (a : KvResult) (rs : List KvResult)
    → r ≡ ok a
    → rest.0 ≡ ok rs
    → and_more r s rest ≡ (ok (a ∷ rs), rest.1)
and_more-ok (ok x) s (ok xs, t) a rs p q = ground arith
and_more-ok (ok x) s (err e, t) a rs p q = absurd (cc)
and_more-ok (err e) s rest a rs p q = absurd (cc)

-- A batch of operations that pass the checks, on a store with room for as many new keys, does what
-- the same operations do to a function from keys to values: its results are those of the
-- specification, and so is what the store then holds under every key.
pub apply_batch_refines :
    (clock : ℕ → ℕ) (ops : List KvOperation) (s : KvStore)
    → IsValid s
    → AllAllowed s.config ops
    → length s.entries + length ops ≤ s.config.max_keys
    → let spec = spec_all ops (view s) in
      ((apply_batch clock ops s).0 ≡ ok spec.0) × (view (apply_batch clock ops s).1 ≡ spec.1)
unfolding apply_batch
apply_batch_refines clock [] s v a room = (refl, refl)
apply_batch_refines clock (op ∷ ops) s v a room =
    let t = (apply_one clock op s).1 in
    let one = apply_one-Does clock op s a.0 v.keys_distinct (omega arith) in
    let w = apply_one-IsValid clock op s v in
    let same : view t ≡ (spec_one op (view s)).1 = fun_ext one.seen in
    let rest =
      apply_batch_refines clock ops t w (subst (λ c. AllAllowed c ops) (sym one.config_same) a.1)
        (omega (arith, one.grown, ap (λ c. c.max_keys) one.config_same)) in
    let agreed =
      subst
        (λ f.
          ((apply_batch clock ops t).0 ≡ ok (spec_all ops f).0)
          × (view (apply_batch clock ops t).1 ≡ (spec_all ops f).1))
        same rest in
    let whole =
      and_more-ok (apply_one clock op s).0 t (apply_batch clock ops t) _ _ one.result agreed.0 in
    (ap (λ r. r.0) whole, ap (λ r. view r.1) whole ∙ agreed.1)
