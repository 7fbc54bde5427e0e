-- ===== src/Smr/Kv/Replicas.antt =====
-- Replicas of examples/kvstore_smr.
use rabia.Base.{ℕ, ◌≡◌, refl, ap, ◌∙◌, List, [], ◌∷◌}
use rabia.Base.Dict.{text_key, NoRepeat}
use rabia.Smr.{run_commands}
use rabia.Smr.Kv.{apply_kv, kv_machine, get_store_state, set_store_state}
use rabia.Smr.Kv.Alike.{Alike, Agree, load_all-SameValues}
use rabia.Kvstore.Operations.{KvOperation}
use rabia.Kvstore.Store.{KvStore}
use rabia.Smr.Kv.Steps.{apply_kv-Agree}

module _ (c c' : ℕ → ℕ) where
  -- Two stores that have the same configuration and hold the same values answer the same commands in
  -- the same way, errors included, and hold the same values after them, though their clocks, versions
  -- and subscribers differ.
  pub run_commands-Agree :
      (ops : List KvOperation) (s t : KvStore)
      → Alike s t
      → Agree (run_commands (kv_machine c) ops s) (run_commands (kv_machine c') ops t)
  unfolding run_commands
  run_commands-Agree [] s t a = record { same_result = refl; alike = a }
  run_commands-Agree (op ∷ ops) s t a =
      let one = apply_kv-Agree c c' op s t a in
      let rest = run_commands-Agree ops (apply_kv c op s).1 (apply_kv c' op t).1 one.alike in
      record {
        same_result =
            ap (λ r. r ∷ (run_commands (kv_machine c) ops (apply_kv c op s).1).0) one.same_result
            ∙ ap (λ rs. (apply_kv c' op t).0 ∷ rs) rest.same_result;
        alike = rest.alike;
      }

  -- A store that takes over the state of another with the same configuration answers all commands
  -- from then on as the other does, and holds the same values.
  pub run_commands-restored :
      (ops : List KvOperation) (s t : KvStore)
      → NoRepeat s.entries
      → t.config ≡ s.config
      → Agree
          (run_commands (kv_machine c) ops s)
          (run_commands (kv_machine c') ops (set_store_state (get_store_state s) t))
  run_commands-restored ops s t h q =
      run_commands-Agree ops s (set_store_state (get_store_state s) t)
        (record { same_config = q; same_values = load_all-SameValues s.entries h })
