-- ===== src/Kvstore/Store.antt =====
-- rabia-kvstore/src/store.rs. An operation is a function from the store to a result and the store
-- after it. The clock is a function of the number of its readings so far; `hash` stands for the
-- library's hasher over what it is fed, in the order of iteration. The callers do not interleave.
pub mod Invariant
pub mod Refinement
pub mod Snapshot
pub mod Errors
use rabia.Base.{
  ℕ, suc, ◌+◌, Bool, true, false, not, ◌&&◌, List, [], ◌∷◌, ◌++◌, map, Option, none, some, length,
  if◌then◌else◌, is_some, is_empty, leb, ltb, ◌==◌,
}
use rabia.Base.Dict
use rabia.Base.Dict.{Dict, text_key, contains_key, insert, remove, update}
use rabia.Base.Text.{Str, bytes, starts_with, decimal}
use rabia.Kvstore.Operations.{
  KvOperation, set, get, delete, exists, KvResult, success, not_found, StoreError, invalid_key,
  value_too_large, store_full, invalid_snapshot, StoreResult, ok, err,
}
use rabia.Kvstore.Notifications.{
  ChangeType, created, updated, deleted, cleared, ChangeNotification, NotificationBus, new_bus,
  publish,
}

pub record KvStoreConfig : Type 0 where
  pub max_keys : ℕ
  pub enable_notifications : Bool
  pub snapshot_frequency : ℕ
  pub enable_compression : Bool
  pub max_value_size : ℕ

-- `KVStoreConfig::default`
abbrev pub default_store_config : KvStoreConfig
default_store_config = record {
  max_keys = 1000000;
  enable_notifications = true;
  snapshot_frequency = 10000;
  enable_compression = false;
  max_value_size = 1048576;
}

pub record ValueEntry : Type 0 where
  pub value : Str
  pub version : ℕ
  pub created_at : ℕ
  pub updated_at : ℕ
  pub size : ℕ

-- `ValueEntry::new`
abbrev pub new_entry : ℕ → Str → ValueEntry
new_entry now value = record {
  value = value;
  version = 1;
  created_at = now;
  updated_at = now;
  size = length value;
}

-- `ValueEntry::update`
abbrev pub update_entry : ℕ → Str → ValueEntry → ValueEntry
update_entry now value entry = record entry {
  value = value;
  version = entry.version + 1;
  updated_at = now;
  size = length value;
}

pub record StoreStats : Type 0 where
  pub total_keys : ℕ
  pub total_operations : ℕ
  pub memory_usage_bytes : ℕ
  pub last_snapshot_at : ℕ
  pub operations_since_snapshot : ℕ

pub record StoreSnapshot : Type 0 where
  pub entries : Dict Str ValueEntry
  pub version : ℕ
  pub created_at : ℕ
  pub checksum : ℕ

-- The store; `asked` counts the readings of the clock.
pub record KvStore : Type 0 where
  pub config : KvStoreConfig
  pub entries : Dict Str ValueEntry
  pub stats : StoreStats
  pub version : ℕ
  pub bus : NotificationBus
  pub shutdown_sent : Bool
  pub asked : ℕ

-- `KVStore::new`
abbrev pub new_store : KvStoreConfig → KvStore
new_store config = record {
  config = config;
  entries = [];
  stats = record {
    total_keys = 0;
    total_operations = 0;
    memory_usage_bytes = 0;
    last_snapshot_at = 0;
    operations_since_snapshot = 0;
  };
  version = 0;
  bus = new_bus;
  shutdown_sent = false;
  asked = 0;
}

unfoldable pub validate_key : Str → StoreResult (Unit {0})
validate_key key =
    if is_empty key
    then err (invalid_key (bytes "Key cannot be empty"))
    else if ltb 256 (length key)
    then err (invalid_key (bytes "Key too long"))
    else ok tt

unfoldable pub validate_value : Str → KvStore → StoreResult (Unit {0})
validate_value value s =
    if ltb s.config.max_value_size (length value) then err value_too_large else ok tt

unfoldable pub increment_operation_count : KvStore → KvStore
increment_operation_count s = record s {
  stats = record s.stats {
    total_operations = s.stats.total_operations + 1;
    operations_since_snapshot = s.stats.operations_since_snapshot + 1;
  };
}

-- The value of the entry.
abbrev pub value_of : Option ValueEntry → Option Str
value_of none = none
value_of (some entry) = some entry.value

-- Behind a check that returns its error at once.
abbrev pub checked :
    {A : Type 0}
    → StoreResult (Unit {0})
    → StoreResult A × KvStore
    → KvStore
    → StoreResult A × KvStore
checked (err x) r s = (err x, s)
checked (ok u) r s = r

unfoldable pub get_key : Str → KvStore → StoreResult (Option Str) × KvStore
get_key key s =
    checked (validate_key key) (ok (value_of (Dict.get key s.entries)), increment_operation_count s)
      s

unfoldable pub get_with_metadata : Str → KvStore → StoreResult (Option ValueEntry) × KvStore
get_with_metadata key s =
    checked (validate_key key) (ok (Dict.get key s.entries), increment_operation_count s) s

unfoldable pub key_exists : Str → KvStore → StoreResult Bool × KvStore
key_exists key s =
    checked (validate_key key) (ok (contains_key key s.entries), increment_operation_count s) s

-- The answer that a batch gives for a question.
abbrev pub found : StoreResult Bool × KvStore → StoreResult KvResult × KvStore
found (ok b, s) = (ok (if b then success else not_found), s)
found (err x, s) = (err x, s)

abbrev pub got : StoreResult (Option Str) × KvStore → StoreResult KvResult × KvStore
got (ok v, s) = (ok (if is_some v then success else not_found), s)
got (err x, s) = (err x, s)

abbrev pub and_more :
    StoreResult KvResult
    → KvStore
    → StoreResult (List KvResult) × KvStore
    → StoreResult (List KvResult) × KvStore
and_more (err x) s rest = (err x, s)
and_more (ok r) s (err x, t) = (err x, t)
and_more (ok r) s (ok rs, t) = (ok (r ∷ rs), t)

module _ (clock : ℕ → ℕ) where
  -- A notification, with a version of its own from `get_version`, which counts up.
  unfoldable pub notify : Str → ChangeType → Option Str → Option Str → KvStore → KvStore
  notify key change_type old_value new_value s =
      if s.config.enable_notifications
      then record s {
        version = s.version + 1;
        asked = suc s.asked;
        bus =
            publish
              (record {
                key = key;
                change_type = change_type;
                old_value = old_value;
                new_value = new_value;
                version = s.version;
                timestamp = clock s.asked;
              })
              s.bus;
      }
      else s

  -- What follows a change of an entry that was there, and of one that was not.
  abbrev pub finish_set : Str → Str → Option Str → KvStore → StoreResult KvResult × KvStore
  finish_set key value old_value s = (
    ok success,
    notify key (if is_some old_value then updated else created) old_value (some value)
        (increment_operation_count s),
  )

  -- The two branches of `set` on the entry of the key.
  abbrev pub set_entry : Option ValueEntry → Str → Str → KvStore → StoreResult KvResult × KvStore
  set_entry (some entry) key value s = finish_set key value (some entry.value) (record s {
    entries = update key (update_entry (clock s.asked) value) s.entries;
    asked = suc s.asked;
  })
  set_entry none key value s =
      if leb s.config.max_keys (length s.entries)
      then (err store_full, s)
      else finish_set key value none (record s {
        entries = insert key (new_entry (clock s.asked) value) s.entries;
        asked = suc s.asked;
      })

  unfoldable pub set_key : Str → Str → KvStore → StoreResult KvResult × KvStore
  set_key key value s =
      checked (validate_key key)
        (checked (validate_value value s) (set_entry (Dict.get key s.entries) key value s) s) s

  -- A key that was not there is no change.
  abbrev pub finish_delete : Str → Option Str → KvStore → StoreResult KvResult × KvStore
  finish_delete key (some old) s = (ok success, notify key deleted (some old) none s)
  finish_delete key none s = (ok not_found, s)

  unfoldable pub delete_key : Str → KvStore → StoreResult KvResult × KvStore
  delete_key key s =
      checked (validate_key key)
        (finish_delete key (value_of (Dict.get key s.entries))
          (increment_operation_count (record s { entries = remove key s.entries })))
        s

  unfoldable pub clear : KvStore → StoreResult KvResult × KvStore
  clear s =
      let s' = increment_operation_count (record s { entries = [] }) in
      (
        ok success,
        if ltb 0 (length s.entries)
            then notify (bytes "*") cleared (some (decimal (length s.entries) ++ bytes " keys"))
                none s'
            else s',
      )

  -- The match in the loop of `apply_batch`.
  unfoldable pub apply_one : KvOperation → KvStore → StoreResult KvResult × KvStore
  apply_one (set key value) s = set_key key value s
  apply_one (get key) s = got (get_key key s)
  apply_one (delete key) s = delete_key key s
  apply_one (exists key) s = found (key_exists key s)

  -- `apply_batch`: the first error ends it; what was done before stays done.
  unfoldable pub apply_batch : List KvOperation → KvStore → StoreResult (List KvResult) × KvStore
  apply_batch [] s = (ok [], s)
  apply_batch (op ∷ ops) s = let (r, s') = apply_one op s in and_more r s' (apply_batch ops s')

-- The keys, with an optional prefix.
abbrev pub keys_with : Option Str → Dict Str ValueEntry → List Str
keys_with prefix [] = []
keys_with none ((k, v) ∷ d) = k ∷ keys_with none d
keys_with (some p) ((k, v) ∷ d) =
    if starts_with k p then k ∷ keys_with (some p) d else keys_with (some p) d

unfoldable pub keys : Option Str → KvStore → StoreResult (List Str) × KvStore
keys prefix s = (ok (keys_with prefix s.entries), increment_operation_count s)

unfoldable pub store_size : KvStore → ℕ
store_size s = length s.entries

-- What the hasher is fed.
abbrev pub fed : Dict Str ValueEntry → List (Str × Str × ℕ)
fed [] = []
fed ((k, e) ∷ d) = (k, e.value, e.version) ∷ fed d

abbrev pub load_all : Dict Str ValueEntry → Dict Str ValueEntry → Dict Str ValueEntry
load_all [] d = d
load_all ((k, e) ∷ rest) d = load_all rest (insert k e d)

module _ (clock : ℕ → ℕ) (hash : List (Str × Str × ℕ) → ℕ) where
  unfoldable pub create_snapshot : KvStore → StoreSnapshot × KvStore
  create_snapshot s = (
    record {
      entries = s.entries;
      version = s.version;
      created_at = clock s.asked;
      checksum = hash (fed s.entries);
    },
    record s {
      version = s.version + 1;
      asked = suc s.asked;
      stats = record s.stats { last_snapshot_at = clock s.asked; operations_since_snapshot = 0 };
    },
  )

  unfoldable pub restore_snapshot : StoreSnapshot → KvStore → StoreResult (Unit {0}) × KvStore
  restore_snapshot snapshot s =
      if not (hash (fed snapshot.entries) == snapshot.checksum)
      then (err invalid_snapshot, s)
      else (ok tt, record s { entries = load_all snapshot.entries []; version = snapshot.version })

-- `estimate_memory_usage`, with the size of the entry's struct.
abbrev pub memory_usage : ℕ → Dict Str ValueEntry → ℕ
memory_usage entry_size [] = 0
memory_usage entry_size ((k, e) ∷ d) = length k + e.size + entry_size + memory_usage entry_size d

unfoldable pub get_stats : ℕ → KvStore → StoreStats
get_stats entry_size s = record s.stats {
  total_keys = length s.entries;
  memory_usage_bytes = memory_usage entry_size s.entries;
}

unfoldable pub send_shutdown : KvStore → StoreResult (Unit {0}) × KvStore
send_shutdown s = (ok tt, record s { shutdown_sent = true })
