-- ===== src/Smr/Kv/Steps.antt =====
-- One command on two stores of examples/kvstore_smr that are alike.
use mathlib.Core.Path.{subst}
use rabia.Base.{
  ℕ, suc, ◌≡◌, refl, sym, ap, ◌∙◌, Bool, true, false, Option, none, some, is_some, length, leb, ltb,
  if◌then◌else◌,
}
use rabia.Base.Dict
use rabia.Base.Dict.{text_key, contains_key, insert, remove, update, NoRepeat}
use rabia.Base.Text.{Str}
use rabia.Smr.Kv.{answered, apply_kv}
use rabia.Smr.Kv.Alike.{
  Alike, Agree, Alike-SameEntries, insert-SameValues, update-SameValues, remove-SameValues,
  same_keys,
}
use rabia.Kvstore.Operations.{
  KvOperation, set, get, delete, exists, KvResult, success, not_found, error, store_full,
  value_too_large, StoreResult, ok, err, to_string,
}
use rabia.Kvstore.Notifications.{ChangeType, created, updated, deleted}
use rabia.Kvstore.Store.{
  ValueEntry, KvStore, new_entry, update_entry, validate_key, validate_value, checked, value_of,
  increment_operation_count, notify, finish_set, set_entry, set_key, get_key, finish_delete,
  delete_key, key_exists, got, found,
}
use rabia.Kvstore.Store.Invariant.{count-SameEntries, notify-SameEntries}

checked-Agree :
    {A : Type 0} (c : StoreResult (Unit {0})) (r q : StoreResult A × KvStore) (s t : KvStore)
    → Alike s t
    → Agree r q
    → Agree (checked c r s) (checked c q t)
checked-Agree (err x) r q s t a h = record { same_result = refl; alike = a }
checked-Agree (ok u) r q s t a h = h

answered-Agree :
    (r q : StoreResult KvResult × KvStore) → Agree r q → Agree (answered r) (answered q)
answered-Agree (ok x, s) (ok y, t) h = record { same_result = cc h.same_result; alike = h.alike }
answered-Agree (err x, s) (err y, t) h = record {
  same_result = ap (λ e. error (to_string e)) (let same : x ≡ y = cc h.same_result in same);
  alike = h.alike;
}
answered-Agree (ok x, s) (err y, t) h = absurd (cc h.same_result)
answered-Agree (err x, s) (ok y, t) h = absurd (cc h.same_result)

count-Alike :
    (s t : KvStore) → Alike s t → Alike (increment_operation_count s) (increment_operation_count t)
count-Alike s t a =
    Alike-SameEntries s (increment_operation_count s) t (increment_operation_count t)
      (count-SameEntries s) (count-SameEntries t) a

module _ (c c' : ℕ → ℕ) where
  notify-Alike :
      (k : Str) (x x' : ChangeType) (o o' n n' : Option Str) (s t : KvStore)
      → Alike s t
      → Alike (notify c k x o n s) (notify c' k x' o' n' t)
  notify-Alike k x x' o o' n n' s t a =
      Alike-SameEntries s (notify c k x o n s) t (notify c' k x' o' n' t)
        (notify-SameEntries c k x o n s) (notify-SameEntries c' k x' o' n' t) a

  finish_set-Agree :
      (k v : Str) (o p : Option Str) (s t : KvStore)
      → Alike s t
      → Agree (finish_set c k v o s) (finish_set c' k v p t)
  finish_set-Agree k v o p s t a = record {
    same_result = refl;
    alike =
        notify-Alike k (if is_some o then updated else created)
          (if is_some p then updated else created) o p (some v) (some v)
          (increment_operation_count s) (increment_operation_count t) (count-Alike s t a);
  }

  set_entry-Agree :
      (o p : Option ValueEntry) (k v : Str) (s t : KvStore)
      → value_of o ≡ value_of p
      → Alike s t
      → Agree (set_entry c o k v s) (set_entry c' p k v t)
  set_entry-Agree (some d) none k v s t q a = absurd (cc q)
  set_entry-Agree none (some e) k v s t q a = absurd (cc q)
  set_entry-Agree (some d) (some e) k v s t q a =
      finish_set-Agree k v (some d.value) (some e.value)
        (record s {
          entries = update k (update_entry (c s.asked) v) s.entries;
          asked = suc s.asked;
        })
        (record t {
          entries = update k (update_entry (c' t.asked) v) t.entries;
          asked = suc t.asked;
        })
        (record {
          same_config = a.same_config;
          same_values =
              update-SameValues k (update_entry (c s.asked) v) (update_entry (c' t.asked) v)
                s.entries t.entries (λ x y. refl) a.same_values;
        })
  set_entry-Agree none none k v s t q a =
      let s' : KvStore = record s {
        entries = insert k (new_entry (c s.asked) v) s.entries;
        asked = suc s.asked;
      } in
      let t' : KvStore = record t {
        entries = insert k (new_entry (c' t.asked) v) t.entries;
        asked = suc t.asked;
      } in
      let full : leb t.config.max_keys (length t.entries)
          ≡ leb s.config.max_keys (length s.entries) =
        ap (λ n. leb n.max_keys (length t.entries)) a.same_config
        ∙ ap (leb s.config.max_keys) (sym a.same_values.sizes) in
      rw full (
        either (leb s.config.max_keys (length s.entries)) s t s' t' a (
          finish_set-Agree k v none none s' t' (record {
            same_config = a.same_config;
            same_values =
                insert-SameValues k (new_entry (c s.asked) v) (new_entry (c' t.asked) v) s.entries
                  t.entries refl a.same_values;
          })))
    where
      either :
          (b : Bool) (s t s' t' : KvStore)
          → Alike s t
          → Agree (finish_set c k v none s') (finish_set c' k v none t')
          → Agree
              (if b then (err store_full, s) else finish_set c k v none s')
              (if b then (err store_full, t) else finish_set c' k v none t')
      either true s t s' t' a h = record { same_result = refl; alike = a }
      either false s t s' t' a h = h

  set_key-Agree :
      (k v : Str) (s t : KvStore) → Alike s t → Agree (set_key c k v s) (set_key c' k v t)
  unfolding set_key validate_value
  set_key-Agree k v s t a =
      let limit : validate_value v t ≡ validate_value v s =
        ap (λ n. if ltb n.max_value_size (length v) then err value_too_large else ok tt)
          a.same_config in
      let r = set_entry c (Dict.get k s.entries) k v s in
      let q = set_entry c' (Dict.get k t.entries) k v t in
      checked-Agree (validate_key k) (checked (validate_value v s) r s)
        (checked (validate_value v t) q t) s t a
        (subst (λ e. Agree (checked (validate_value v s) r s) (checked e q t)) (sym limit)
          (checked-Agree (validate_value v s) r q s t a (
            set_entry-Agree (Dict.get k s.entries) (Dict.get k t.entries) k v s t
              (a.same_values.values k) a)))

  finish_delete-Agree :
      (k : Str) (o p : Option Str) (s t : KvStore)
      → o ≡ p
      → Alike s t
      → Agree (finish_delete c k o s) (finish_delete c' k p t)
  finish_delete-Agree k none none s t q a = record { same_result = refl; alike = a }
  finish_delete-Agree k none (some y) s t q a = absurd (cc q)
  finish_delete-Agree k (some x) none s t q a = absurd (cc q)
  finish_delete-Agree k (some x) (some y) s t q a = record {
    same_result = refl;
    alike = notify-Alike k deleted deleted (some x) (some y) none none s t a;
  }

  delete_key-Agree :
      (k : Str) (s t : KvStore) → Alike s t → Agree (delete_key c k s) (delete_key c' k t)
  unfolding delete_key
  delete_key-Agree k s t a =
      let s' : KvStore = record s { entries = remove k s.entries } in
      let t' : KvStore = record t { entries = remove k t.entries } in
      checked-Agree (validate_key k) _ _ s t a (
        finish_delete-Agree k (value_of (Dict.get k s.entries)) (value_of (Dict.get k t.entries))
          (increment_operation_count s') (increment_operation_count t') (a.same_values.values k)
          (count-Alike s' t' (record {
            same_config = a.same_config;
            same_values = remove-SameValues k s.entries t.entries a.same_values;
          })))

got-Agree : (r q : StoreResult (Option Str) × KvStore) → Agree r q → Agree (got r) (got q)
got-Agree (ok x, s) (ok y, t) h = record {
  same_result =
      ap (λ v. ok (if is_some v then success else not_found))
        (let same : x ≡ y = cc h.same_result in same);
  alike = h.alike;
}
got-Agree (err x, s) (err y, t) h = record {
  same_result = ap err (let same : x ≡ y = cc h.same_result in same);
  alike = h.alike;
}
got-Agree (ok x, s) (err y, t) h = absurd (cc h.same_result)
got-Agree (err x, s) (ok y, t) h = absurd (cc h.same_result)

found-Agree : (r q : StoreResult Bool × KvStore) → Agree r q → Agree (found r) (found q)
found-Agree (ok x, s) (ok y, t) h = record {
  same_result =
      ap (λ v. ok (if v then success else not_found)) (let same : x ≡ y = cc h.same_result in same);
  alike = h.alike;
}
found-Agree (err x, s) (err y, t) h = record {
  same_result = ap err (let same : x ≡ y = cc h.same_result in same);
  alike = h.alike;
}
found-Agree (ok x, s) (err y, t) h = absurd (cc h.same_result)
found-Agree (err x, s) (ok y, t) h = absurd (cc h.same_result)

question-Agree :
    {A : Type 0} (k : Str) (x y : A) (s t : KvStore)
    → x ≡ y
    → Alike s t
    → Agree
        (checked (validate_key k) (ok x, increment_operation_count s) s)
        (checked (validate_key k) (ok y, increment_operation_count t) t)
question-Agree k x y s t q a =
    checked-Agree (validate_key k) (ok x, increment_operation_count s)
      (ok y, increment_operation_count t) s t a
      (record { same_result = ap ok q; alike = count-Alike s t a })

module _ (c c' : ℕ → ℕ) where
  pub apply_kv-Agree :
      (op : KvOperation) (s t : KvStore) → Alike s t → Agree (apply_kv c op s) (apply_kv c' op t)
  unfolding apply_kv get_key key_exists
  apply_kv-Agree (set k v) s t a =
      answered-Agree (set_key c k v s) (set_key c' k v t) (set_key-Agree c c' k v s t a)
  apply_kv-Agree (delete k) s t a =
      answered-Agree (delete_key c k s) (delete_key c' k t) (delete_key-Agree c c' k s t a)
  apply_kv-Agree (get k) s t a = answered-Agree (got (get_key k s)) (got (get_key k t)) (
      got-Agree (get_key k s) (get_key k t) (
        question-Agree k (value_of (Dict.get k s.entries)) (value_of (Dict.get k t.entries)) s t
          (a.same_values.values k) a))
  apply_kv-Agree (exists k) s t a =
      answered-Agree (found (key_exists k s)) (found (key_exists k t)) (
        found-Agree (key_exists k s) (key_exists k t) (
          question-Agree k (contains_key k s.entries) (contains_key k t.entries) s t
            (same_keys s.entries t.entries k (a.same_values.values k)) a))
