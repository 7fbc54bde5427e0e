-- ===== src/Kvstore/Examples.antt =====
-- The theorems on the key-value store at concrete inputs.
use rabia.Base.{ℕ, ◌+◌, ◌≡◌, refl, List, [], ◌∷◌, none, some, arith, length}
use rabia.Base.Dict
use rabia.Base.Dict.{text_key, nat_key}
use rabia.Base.Text.{Str, bytes}
use rabia.Kvstore.Operations.{KvOperation, set, get, delete, exists, success, invalid_key, ok, err}
use rabia.Kvstore.Notifications.{
  ChangeNotification, created, deleted, NotificationBus, new_bus, of_type, everything,
}
use rabia.Kvstore.Notifications.Delivery.{publish_all, open_with, publish_all_delivers}
use rabia.Kvstore.Store.{
  KvStore, default_store_config, ValueEntry, new_store, apply_one, get_key, key_exists,
  validate_key, increment_operation_count, apply_batch, create_snapshot, restore_snapshot,
}
use rabia.Kvstore.Store.Invariant.{IsEntry, IsValid, apply_batch-IsValid}
use rabia.Kvstore.Store.Refinement.{view, spec_all, apply_batch_refines}
use rabia.Kvstore.Store.Snapshot.{restore-create_snapshot}
use rabia.Kvstore.Store.Errors.{apply_batch_stops}

-- A clock that ticks with every reading, and a sum in place of the hash.
abbrev clock : ℕ → ℕ
clock n = 1000 + n

abbrev hash : List (Str × Str × ℕ) → ℕ
hash [] = 7
hash ((k, v, n) ∷ r) = length k + length v + n + hash r

abbrev entry_of : Str → ValueEntry
entry_of v = record { value = v; version = 1; created_at = 10; updated_at = 10; size = length v }

-- A store with room for four keys, that holds two.
abbrev small : KvStore
small = record (new_store (record default_store_config { max_keys = 4 })) {
  entries = (bytes "a", entry_of (bytes "x")) ∷ (bytes "b", entry_of (bytes "y")) ∷ [];
  version = 2;
}

a_good : IsEntry small.config (bytes "a") (entry_of (bytes "x"))
a_good = record {
  some_key = omega arith;
  short_key = omega arith;
  sized = refl;
  not_large = omega arith;
  numbered = omega arith;
}

b_good : IsEntry small.config (bytes "b") (entry_of (bytes "y"))
b_good = record {
  some_key = omega arith;
  short_key = omega arith;
  sized = refl;
  not_large = omega arith;
  numbered = omega arith;
}

small-IsValid : IsValid small
small-IsValid = record {
  keys_distinct = (refl, (refl, tt));
  not_full = omega arith;
  entries_good = (a_good, (b_good, tt));
}

abbrev some_operations : List KvOperation
some_operations = set (bytes "a") (bytes "z") ∷ get (bytes "c") ∷ []

apply_batch-IsValid_example : IsValid (apply_batch clock some_operations small).1
apply_batch-IsValid_example = apply_batch-IsValid clock some_operations small small-IsValid

apply_batch_refines_example :
    let spec = spec_all some_operations (view small) in
    ((apply_batch clock some_operations small).0 ≡ ok spec.0)
    × (view (apply_batch clock some_operations small).1 ≡ spec.1)
apply_batch_refines_example =
    apply_batch_refines clock some_operations small small-IsValid
      ((omega arith, omega arith, omega arith), ((omega arith, omega arith), tt)) (omega arith)

restore-create_snapshot_example :
    let taken = create_snapshot clock hash small in
    let restored = restore_snapshot clock hash taken.0 (new_store default_store_config) in
    (restored.0 ≡ ok tt)
    × (Dict.get (bytes "b") restored.1.entries ≡ Dict.get (bytes "b") small.entries)
    × (restored.1.version ≡ small.version)
    × (taken.1.entries ≡ small.entries)
restore-create_snapshot_example =
    restore-create_snapshot clock hash small (new_store default_store_config) (bytes "b")
      small-IsValid

apply_batch_stops_example :
    apply_batch clock (exists (bytes "a") ∷ get [] ∷ delete (bytes "a") ∷ []) small ≡ (
      err (invalid_key (bytes "Key cannot be empty")),
      (apply_batch clock (exists (bytes "a") ∷ []) small).1,
    )
unfolding apply_batch apply_one get_key key_exists validate_key increment_operation_count
apply_batch_stops_example =
    apply_batch_stops clock (exists (bytes "a") ∷ []) (delete (bytes "a") ∷ []) (get []) small
      (success ∷ []) (invalid_key (bytes "Key cannot be empty")) refl refl

-- A subscriber to deletions beside one to everything.
abbrev two_subscribers : NotificationBus
two_subscribers = record new_bus {
  subscribers = (1, open_with (of_type deleted) []) ∷ (2, open_with everything []) ∷ [];
}

abbrev note : ChangeNotification
note = record {
  key = bytes "a";
  change_type = deleted;
  old_value = some (bytes "x");
  new_value = none;
  version = 3;
  timestamp = 1000;
}

abbrev notes : List ChangeNotification
notes = record note { change_type = created } ∷ note ∷ []

publish_all_delivers_example :
    Dict.get 1 (publish_all notes two_subscribers).subscribers
    ≡ some (open_with (of_type deleted) (note ∷ []))
publish_all_delivers_example =
    publish_all_delivers notes two_subscribers 1 (of_type deleted) [] refl
