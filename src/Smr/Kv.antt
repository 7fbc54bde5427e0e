-- ===== src/Smr/Kv.antt =====
-- examples/kvstore_smr: the key-value store as a machine to be replicated. Its operations.rs and
-- notifications.rs are those of rabia-kvstore, line for line, and so is store.rs but for the access
-- to the whole of the data, so the store is the one of Kvstore. The byte encoding of the state is a
-- crate's.
pub mod Alike
pub mod Steps
pub mod Replicas
pub mod Examples
use rabia.Base.{ℕ, []}
use rabia.Base.Dict.{Dict}
use rabia.Base.Text.{Str}
use rabia.Smr.{Machine}
use rabia.Kvstore.Operations.{
  KvOperation, set, get, delete, exists, KvResult, error, StoreResult, ok, err, to_string,
}
use rabia.Kvstore.Store.{
  KvStoreConfig, ValueEntry, KvStore, new_store, load_all, set_key, get_key, delete_key, key_exists,
  found, got,
}

pub record KvStoreState : Type 0 where
  pub data_entries : Dict Str ValueEntry
  pub version : ℕ

abbrev pub current_version : KvStore → ℕ
current_version s = s.version

abbrev pub get_all_data : KvStore → Dict Str ValueEntry
get_all_data s = s.entries

abbrev pub set_version : ℕ → KvStore → KvStore
set_version n s = record s { version = n }

abbrev pub set_all_data : Dict Str ValueEntry → KvStore → KvStore
set_all_data d s = record s { entries = load_all d [] }

-- An error becomes a result that says what it is.
abbrev pub answered : StoreResult KvResult × KvStore → KvResult × KvStore
answered (ok r, s) = (r, s)
answered (err e, s) = (error (to_string e), s)

-- `apply_command`
unfoldable pub apply_kv : (ℕ → ℕ) → KvOperation → KvStore → KvResult × KvStore
apply_kv clock (set k v) s = answered (set_key clock k v s)
apply_kv clock (get k) s = answered (got (get_key k s))
apply_kv clock (delete k) s = answered (delete_key clock k s)
apply_kv clock (exists k) s = answered (found (key_exists k s))

abbrev pub get_store_state : KvStore → KvStoreState
get_store_state s = record { data_entries = get_all_data s; version = current_version s }

abbrev pub set_store_state : KvStoreState → KvStore → KvStore
set_store_state state s = set_version state.version (set_all_data state.data_entries s)

-- `KVStoreSMR`
abbrev pub kv_machine : (ℕ → ℕ) → Machine KvStore KvStoreState KvOperation KvResult
kv_machine clock = record {
  apply_command = apply_kv clock;
  get_state = get_store_state;
  set_state = set_store_state;
}

-- `KVStoreSMR::clone`: a new store with the configuration, then the data.
abbrev pub clone_kv : KvStore → KvStore
clone_kv s = set_version (current_version s) (set_all_data (get_all_data s) (new_store s.config))
