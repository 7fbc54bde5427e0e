-- ===== src/Kvstore/Store/Errors.antt =====
-- Errors and notifications of the store of rabia-kvstore/src/store.rs.
use mathlib.Core.Path.{subst}
use rabia.Base.{
  ℕ, ◌≡◌, refl, sym, ◌+◌, ap, ◌∙◌, Bool, true, false, List, [], ◌∷◌, ◌++◌, Option, none, some,
  arith, leb, length, if_all, if◌then◌else◌, is_some,
}
use rabia.Base.Dict
use rabia.Base.Dict.{text_key}
use rabia.Base.Text.{Str}
use rabia.Kvstore.Operations.{
  KvOperation, set, get, delete, exists, KvResult, StoreError, StoreResult, ok, err, succeeds,
}
use rabia.Kvstore.Notifications.{created, updated, ChangeNotification, publish}
use rabia.Kvstore.Store.{
  ValueEntry, KvStore, validate_key, validate_value, increment_operation_count, value_of, checked,
  notify, set_entry, set_key, get_key, delete_key, finish_delete, key_exists, apply_one,
  apply_batch, got, found, and_more,
}
use rabia.Kvstore.Store.Invariant.{checked_all}

-- A result that is an error comes with the store as it was.
FailsClean : {A : Type 0} → KvStore → StoreResult A × KvStore → Type 0
FailsClean s r = succeeds r.0 ≡ false → r.1 ≡ s

module _ (clock : ℕ → ℕ) where
  set_entry-FailsClean :
      (o : Option ValueEntry) (k v : Str) (s : KvStore) → FailsClean s (set_entry clock o k v s)
  unfolding FailsClean
  set_entry-FailsClean (some e) k v s h = absurd (cc h)
  set_entry-FailsClean none k v s h =
      if_all (λ (r : StoreResult KvResult × KvStore). succeeds r.0 ≡ false → r.1 ≡ s)
        (leb s.config.max_keys (length s.entries)) _ _ (λ full h. refl) (λ room h. absurd (cc h)) h

  checked-FailsClean :
      {A : Type 0} (c : StoreResult (Unit {0})) (r : StoreResult A × KvStore) (s : KvStore)
      → FailsClean s r
      → FailsClean s (checked c r s)
  unfolding FailsClean
  checked-FailsClean (err x) r s h k = refl
  checked-FailsClean (ok u) r s h k = h k

  got-FailsClean :
      (r : StoreResult (Option Str) × KvStore) (s : KvStore) → FailsClean s r → FailsClean s (got r)
  unfolding FailsClean
  got-FailsClean (ok x, t) s h k = absurd (cc k)
  got-FailsClean (err x, t) s h k = h refl

  found-FailsClean :
      (r : StoreResult Bool × KvStore) (s : KvStore) → FailsClean s r → FailsClean s (found r)
  unfolding FailsClean
  found-FailsClean (ok x, t) s h k = absurd (cc k)
  found-FailsClean (err x, t) s h k = h refl

  finish_delete-FailsClean :
      (o : Option Str) (k : Str) (t s : KvStore) → FailsClean s (finish_delete clock k o t)
  unfolding FailsClean
  finish_delete-FailsClean none k t s h = absurd (cc h)
  finish_delete-FailsClean (some x) k t s h = absurd (cc h)

  -- An operation that fails leaves the whole store as it was, with its counters and its bus.
  pub apply_one_error :
      (op : KvOperation) (s : KvStore)
      → succeeds (apply_one clock op s).0 ≡ false
      → (apply_one clock op s).1 ≡ s
  unfolding FailsClean apply_one set_key get_key delete_key key_exists
  apply_one_error (set k v) s = checked-FailsClean (validate_key k) _ s (
      checked-FailsClean (validate_value v s) _ s
        (set_entry-FailsClean (Dict.get k s.entries) k v s))
  apply_one_error (get k) s = got-FailsClean (get_key k s) s (
      checked-FailsClean (validate_key k)
        (ok (value_of (Dict.get k s.entries)), increment_operation_count s) s (λ h. absurd (cc h)))
  apply_one_error (exists k) s = found-FailsClean (key_exists k s) s (
      checked-FailsClean (validate_key k)
        (ok (Dict.contains_key k s.entries), increment_operation_count s) s (λ h. absurd (cc h)))
  apply_one_error (delete k) s =
      checked-FailsClean (validate_key k) _ s
        (finish_delete-FailsClean (value_of (Dict.get k s.entries)) k _ s)

and_more-err :
    (r : StoreResult KvResult) (s : KvStore) (rest : StoreResult (List KvResult) × KvStore)
    (x : StoreError)
    → r ≡ err x
    → and_more r s rest ≡ (err x, s)
and_more-err (err y) s rest x h = ground arith
and_more-err (ok r) s rest x h = absurd (cc)

-- Both the operation and the rest of the batch went well.
abbrev WentWell :
    StoreResult KvResult
    → StoreResult (List KvResult) × KvStore
    → StoreResult (List KvResult) × KvStore
    → Type 0
WentWell r rest whole =
    (a : KvResult) × (rest_results : List KvResult) × (r ≡ ok a)
    × (rest.0 ≡ ok rest_results)
    × (whole.1 ≡ rest.1)

and_more-WentWell :
    (r : StoreResult KvResult) (s : KvStore) (rest : StoreResult (List KvResult) × KvStore)
    (rs : List KvResult)
    → (and_more r s rest).0 ≡ ok rs
    → WentWell r rest (and_more r s rest)
and_more-WentWell (ok a) s (ok rest_results, t) rs h = (a, rest_results, refl, refl, refl)
and_more-WentWell (ok a) s (err x, t) rs h = absurd (cc)
and_more-WentWell (err x) s rest rs h = absurd (cc)

and_more-ok_err :
    (r : StoreResult KvResult) (s : KvStore) (rest : StoreResult (List KvResult) × KvStore)
    (a : KvResult) (x : StoreError) (t : KvStore)
    → r ≡ ok a
    → rest ≡ (err x, t)
    → and_more r s rest ≡ (err x, t)
and_more-ok_err (ok b) s (err y, u) a x t p q = ground arith
and_more-ok_err (ok b) s (ok y, u) a x t p q = absurd (ground arith)
and_more-ok_err (err y) s rest a x t p q = absurd (cc)

-- A batch stops at the first operation that fails, returns its error, and keeps what the operations
-- before it did.
pub apply_batch_stops :
    (clock : ℕ → ℕ) (before after : List KvOperation) (op : KvOperation) (s : KvStore)
    (rs : List KvResult) (x : StoreError)
    → (apply_batch clock before s).0 ≡ ok rs
    → (apply_one clock op (apply_batch clock before s).1).0 ≡ err x
    → apply_batch clock (before ++ op ∷ after) s ≡ (err x, (apply_batch clock before s).1)
unfolding apply_batch
apply_batch_stops clock [] after op s rs x p q =
    let clean = apply_one_error clock op s (ap succeeds q) in
    and_more-err _ _ _ x q ∙ ap (λ t. (err x, t)) clean
apply_batch_stops clock (b ∷ before) after op s rs x p q =
    let one = apply_one clock b s in
    let well = and_more-WentWell one.0 one.1 (apply_batch clock before one.1) rs p in
    let rest =
      apply_batch_stops clock before after op one.1 _ x well.3
        (subst (λ t. (apply_one clock op t).0 ≡ err x) well.4 q) in
    and_more-ok_err one.0 one.1 _ _ x _ well.2 rest ∙ ap (λ t. (err x, t)) (sym well.4)

-- The change that `set` tells of, given the entry that was there.
abbrev pub change : (ℕ → ℕ) → Option ValueEntry → Str → Str → KvStore → ChangeNotification
change clock o k v s = record {
  key = k;
  change_type = if is_some o then updated else created;
  old_value = value_of o;
  new_value = some v;
  version = s.version;
  timestamp = clock (s.asked + 1);
}

bus-set_entry :
    (clock : ℕ → ℕ) (o : Option ValueEntry) (k v : Str) (s : KvStore)
    → s.config.enable_notifications ≡ true
    → succeeds (set_entry clock o k v s).0 ≡ true
    → (set_entry clock o k v s).1.bus ≡ publish (change clock o k v s) s.bus
unfolding notify increment_operation_count
bus-set_entry clock (some e) k v s on h = ground arith
bus-set_entry clock none k v s on h = ground arith

-- Where notifications are on, a `set` that succeeds publishes one, and only one: that the key was
-- created or updated, with the value it had before and the one it has now.
pub set_key_publishes :
    (clock : ℕ → ℕ) (k v : Str) (s : KvStore)
    → s.config.enable_notifications ≡ true
    → succeeds (set_key clock k v s).0 ≡ true
    → (set_key clock k v s).1.bus ≡ publish (change clock (Dict.get k s.entries) k v s) s.bus
unfolding set_key
set_key_publishes clock k v s on =
    let told = publish (change clock (Dict.get k s.entries) k v s) s.bus in
    checked_all (λ r. succeeds r.0 ≡ true → r.1.bus ≡ told) (validate_key k) _ s
      (λ x p q. absurd (cc q))
      λ p.
        checked_all (λ r. succeeds r.0 ≡ true → r.1.bus ≡ told) (validate_value v s) _ s
          (λ x p q. absurd (cc q)) (λ p. bus-set_entry clock (Dict.get k s.entries) k v s on)
