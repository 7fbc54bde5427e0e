-- ===== src/Kvstore/Store/Invariant.antt =====
-- The invariant of the store of rabia-kvstore/src/store.rs, operation by operation.
use rabia.Base.{
  ℕ, suc, ◌≤◌, ◌<◌, ◌≡◌, refl, List, [], ◌∷◌, Option, none, some, length, arith, is_empty-eq, leb,
  if_all, Bool,
}
use rabia.Base.Dict
use rabia.Base.Dict.{
  text_key, NoRepeat, Entries, insert, remove, update, insert-NoRepeat, remove-NoRepeat,
  update-NoRepeat, insert-Entries, remove-Entries, update-Entries, length-insert, length-remove,
  length-update,
}
use rabia.Base.Text.{Str}
use rabia.Kvstore.Operations.{
  KvOperation, set, get, delete, exists, KvResult, StoreError, StoreResult, ok, err,
}
use rabia.Kvstore.Notifications.{ChangeType, deleted}
use rabia.Kvstore.Store.{
  KvStoreConfig, ValueEntry, new_entry, update_entry, KvStore, new_store, validate_key,
  validate_value, increment_operation_count, value_of, checked, notify, set_entry, set_key, get_key,
  delete_key, key_exists, apply_one, apply_batch, and_more, finish_delete, got, found,
}

-- A key of 1 to 256 bytes, with a value that is not too large, its true size, and a version.
pub record IsEntry (c : KvStoreConfig) (k : Str) (e : ValueEntry) : Type 0 where
  pub some_key : 0 < length k
  pub short_key : length k ≤ 256
  pub sized : e.size ≡ length e.value
  pub not_large : e.size ≤ c.max_value_size
  pub numbered : 0 < e.version

-- No key stands twice, there are at most `max_keys`, and every entry is good.
pub record IsValid (s : KvStore) : Type 0 where
  pub keys_distinct : NoRepeat s.entries
  pub not_full : length s.entries ≤ s.config.max_keys
  pub entries_good : Entries (IsEntry s.config) s.entries

pub new_store-IsValid : (c : KvStoreConfig) → IsValid (new_store c)
new_store-IsValid c = record { keys_distinct = tt; not_full = omega arith; entries_good = tt }

-- The same entries and the same configuration.
pub record SameEntries (s t : KvStore) : Type 0 where
  pub entries_same : t.entries ≡ s.entries
  pub config_same : t.config ≡ s.config

pub count-SameEntries : (s : KvStore) → SameEntries s (increment_operation_count s)
unfolding increment_operation_count
count-SameEntries s = record { entries_same = refl; config_same = refl }

pub notify-SameEntries :
    (clock : ℕ → ℕ) (k : Str) (t : ChangeType) (old new : Option Str) (s : KvStore)
    → SameEntries s (notify clock k t old new s)
unfolding notify
notify-SameEntries clock k t old new s = record {
  entries_same = ground arith;
  config_same = ground arith;
}

IsValid-SameEntries : (s t : KvStore) → SameEntries s t → IsValid s → IsValid t
IsValid-SameEntries s t h v = record {
  keys_distinct = rw h.entries_same v.keys_distinct;
  not_full = rw (h.entries_same, h.config_same) v.not_full;
  entries_good = rw (h.entries_same, h.config_same) v.entries_good;
}

pub validate_key_iff : (k : Str) → validate_key k ≡ ok tt → (0 < length k) × (length k ≤ 256)
unfolding validate_key
validate_key_iff k h = let nonempty = is_empty-eq k in ground arith

pub validate_value_lem :
    (v : Str) (s : KvStore) → validate_value v s ≡ ok tt → length v ≤ s.config.max_value_size
unfolding validate_value
validate_value_lem v s h = ground arith

-- What holds where a check fails, and behind it, holds of the whole.
pub checked_all :
    {A : Type 0} (P : StoreResult A × KvStore → Type 0) (c : StoreResult (Unit {0}))
    (r : StoreResult A × KvStore) (s : KvStore)
    → ((x : StoreError) → c ≡ err x → P (err x, s))
    → (c ≡ ok tt → P r)
    → P (checked c r s)
checked_all P (err x) r s f g = f x refl
checked_all P (ok u) r s f g = g refl

module _ (clock : ℕ → ℕ) where
  finish-IsValid :
      (k : Str) (t : ChangeType) (old new : Option Str) (s : KvStore)
      → IsValid s
      → IsValid (notify clock k t old new (increment_operation_count s))
  finish-IsValid k t old new s v =
      IsValid-SameEntries (increment_operation_count s) _
        (notify-SameEntries clock k t old new (increment_operation_count s))
        (IsValid-SameEntries s (increment_operation_count s) (count-SameEntries s) v)

  update_entry-IsEntry :
      (c : KvStoreConfig) (now : ℕ) (value k : Str) (e : ValueEntry)
      → length value ≤ c.max_value_size
      → IsEntry c k e
      → IsEntry c k (update_entry now value e)
  update_entry-IsEntry c now value k e h g = record {
    some_key = g.some_key;
    short_key = g.short_key;
    sized = refl;
    not_large = h;
    numbered = omega arith;
  }

  set_entry-IsValid :
      (o : Option ValueEntry) (k value : Str) (s : KvStore)
      → Dict.get k s.entries ≡ o
      → 0 < length k
      → length k ≤ 256
      → length value ≤ s.config.max_value_size
      → IsValid s
      → IsValid (set_entry clock o k value s).1
  set_entry-IsValid (some e) k value s q a b c v =
      let touch = update_entry (clock s.asked) value in
      finish-IsValid k _ _ _ (record s { entries = update k touch s.entries; asked = suc s.asked })
        (record {
          keys_distinct = update-NoRepeat k touch s.entries v.keys_distinct;
          not_full = omega (arith, length-update k touch s.entries, v.not_full);
          entries_good =
              update-Entries (IsEntry s.config) k touch s.entries
                (λ j w g. update_entry-IsEntry s.config (clock s.asked) value j w c g)
                v.entries_good;
        })
  set_entry-IsValid none k value s q a b c v =
      let fresh = new_entry (clock s.asked) value in
      if_all (λ (r : StoreResult KvResult × KvStore). IsValid r.1)
        (leb s.config.max_keys (length s.entries)) _ _ (λ full. v)
        λ room.
          finish-IsValid k _ _ _
            (record s { entries = insert k fresh s.entries; asked = suc s.asked })
            (record {
              keys_distinct = insert-NoRepeat k fresh s.entries v.keys_distinct;
              not_full = ground (arith, length-insert k fresh s.entries, v.not_full);
              entries_good =
                  insert-Entries (IsEntry s.config) k fresh s.entries
                    (record {
                      some_key = a;
                      short_key = b;
                      sized = refl;
                      not_large = c;
                      numbered = omega arith;
                    })
                    v.entries_good;
            })

  set_key-IsValid : (k value : Str) (s : KvStore) → IsValid s → IsValid (set_key clock k value s).1
  unfolding set_key
  set_key-IsValid k value s v =
      checked_all (λ r. IsValid r.1) (validate_key k) _ s (λ x h. v)
        λ h.
          checked_all (λ r. IsValid r.1) (validate_value value s) _ s (λ x g. v)
            λ g.
              set_entry-IsValid (Dict.get k s.entries) k value s refl (validate_key_iff k h).0
                (validate_key_iff k h).1 (validate_value_lem value s g) v

  finish_delete-IsValid :
      (o : Option Str) (k : Str) (s : KvStore) → IsValid s → IsValid (finish_delete clock k o s).1
  finish_delete-IsValid none k s v = v
  finish_delete-IsValid (some old) k s v =
      IsValid-SameEntries s _ (notify-SameEntries clock k deleted (some old) none s) v

  delete_key-IsValid : (k : Str) (s : KvStore) → IsValid s → IsValid (delete_key clock k s).1
  unfolding delete_key
  delete_key-IsValid k s v =
      let s' = record s { entries = remove k s.entries } in
      checked_all (λ r. IsValid r.1) (validate_key k) _ s (λ x h. v)
        λ h.
          finish_delete-IsValid (value_of (Dict.get k s.entries)) k (increment_operation_count s') (
            IsValid-SameEntries s' (increment_operation_count s') (count-SameEntries s') (record {
              keys_distinct = remove-NoRepeat k s.entries v.keys_distinct;
              not_full = ground (arith, length-remove k s.entries, v.not_full);
              entries_good = remove-Entries (IsEntry s.config) k s.entries v.entries_good;
            }))

  got-keeps : (r : StoreResult (Option Str) × KvStore) → (got r).1 ≡ r.1
  got-keeps (ok x, s) = refl
  got-keeps (err x, s) = refl

  found-keeps : (r : StoreResult Bool × KvStore) → (found r).1 ≡ r.1
  found-keeps (ok x, s) = refl
  found-keeps (err x, s) = refl

  question-IsValid :
      {A : Type 0} (k : Str) (r : A) (s : KvStore)
      → IsValid s
      → IsValid (checked (validate_key k) (ok r, increment_operation_count s) s).1
  question-IsValid k r s v =
      checked_all (λ r. IsValid r.1) (validate_key k) _ s (λ x h. v)
        λ h. IsValid-SameEntries s (increment_operation_count s) (count-SameEntries s) v

  pub apply_one-IsValid :
      (op : KvOperation) (s : KvStore) → IsValid s → IsValid (apply_one clock op s).1
  unfolding apply_one get_key key_exists
  apply_one-IsValid (set k x) s v = set_key-IsValid k x s v
  apply_one-IsValid (delete k) s v = delete_key-IsValid k s v
  apply_one-IsValid (get k) s v = rw (got-keeps (get_key k s)) (question-IsValid k _ s v)
  apply_one-IsValid (exists k) s v = rw (found-keeps (key_exists k s)) (question-IsValid k _ s v)

  and_more-IsValid :
      (r : StoreResult KvResult) (s : KvStore) (rest : StoreResult (List KvResult) × KvStore)
      → IsValid s
      → IsValid rest.1
      → IsValid (and_more r s rest).1
  and_more-IsValid (err x) s rest v w = v
  and_more-IsValid (ok r) s (err x, t) v w = w
  and_more-IsValid (ok r) s (ok rs, t) v w = w

-- A batch of any operations, good and bad, keeps the store's invariant, whether the batch ends well
-- or stops at an error.
pub apply_batch-IsValid :
    (clock : ℕ → ℕ) (ops : List KvOperation) (s : KvStore)
    → IsValid s
    → IsValid (apply_batch clock ops s).1
unfolding apply_batch
apply_batch-IsValid clock [] s v = v
apply_batch-IsValid clock (op ∷ ops) s v =
    let w = apply_one-IsValid clock op s v in
    and_more-IsValid clock (apply_one clock op s).0 (apply_one clock op s).1 _ w
      (apply_batch-IsValid clock ops (apply_one clock op s).1 w)
