-- ===== src/Smr/Kv/Examples.antt =====
-- The theorems on the replicated key-value store at concrete inputs.
use rabia.Base.{ℕ, ◌+◌, refl, List, [], ◌∷◌}
use rabia.Base.Dict.{text_key}
use rabia.Base.Text.{bytes}
use rabia.Smr.{run_commands}
use rabia.Smr.Kv.{kv_machine, get_store_state, set_store_state}
use rabia.Smr.Kv.Alike.{Alike, Agree, insert-SameValues}
use rabia.Smr.Kv.Replicas.{run_commands-Agree, run_commands-restored}
use rabia.Kvstore.Operations.{KvOperation, set, get, delete, exists}
use rabia.Kvstore.Store.{ValueEntry, KvStore, default_store_config, new_store}

abbrev fast : ℕ → ℕ
fast n = 1000 + n

abbrev slow : ℕ → ℕ
slow n = 5

abbrev entry_at : ℕ → ValueEntry
entry_at now = record {
  value = bytes "x";
  version = 3;
  created_at = now;
  updated_at = now;
  size = 1;
}

-- A store with one key, at another time.
abbrev one_key : ℕ → KvStore
one_key now = record (new_store default_store_config) {
  entries = (bytes "a", entry_at now) ∷ [];
  version = now;
}

-- A key that is too short, then one that is new, and one that goes.
abbrev script : List KvOperation
script =
    set [] (bytes "y")
    ∷ set (bytes "b") (bytes "y")
    ∷ delete (bytes "a")
    ∷ get (bytes "a")
    ∷ exists (bytes "b")
    ∷ []

one_key-Alike : Alike (one_key 1) (one_key 8)
one_key-Alike = record {
  same_config = refl;
  same_values =
      insert-SameValues (bytes "a") (entry_at 1) (entry_at 8) [] [] refl
        (record { values = λ k. refl; sizes = refl; distinct = tt; distinct_too = tt });
}

run_commands-Agree_example :
    Agree
      (run_commands (kv_machine fast) script (one_key 1))
      (run_commands (kv_machine slow) script (one_key 8))
run_commands-Agree_example =
    run_commands-Agree fast slow script (one_key 1) (one_key 8) one_key-Alike

run_commands-restored_example : Agree (run_commands (kv_machine fast) script (one_key 1)) (
    run_commands
      (kv_machine slow)
      script
      (set_store_state (get_store_state (one_key 1)) (new_store default_store_config)))
run_commands-restored_example =
    run_commands-restored fast slow script (one_key 1) (new_store default_store_config) (refl, tt)
      refl
