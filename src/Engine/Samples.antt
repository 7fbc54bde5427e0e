-- ===== src/Engine/Samples.antt =====
-- An engine that counts the commands it applies, in a cluster of three nodes, with a clock, a
-- network and a disk that work: what the examples run on.
use rabia.Base.{ℕ, suc, ◌+◌, true, [], ◌∷◌, none}
use rabia.Core.Types.{CommandBatch}
use rabia.Core.Error.{ok, err, internal, text}
use rabia.Core.Network.{ClusterConfig}
use rabia.Core.Phase.{new_phase}
use rabia.Engine.State.{EngineState, init}
use rabia.Engine.Runtime.{StateMachine, Env, RabiaEngine, new_engine, default_config}

-- The state is the number of commands applied.
abbrev pub counter : StateMachine ℕ
counter = record {
  apply_command = λ s c. (ok [], suc s);
  create_snapshot = λ s. ok (record { version = s; payload = []; checksum = 0 });
  restore_snapshot = λ s snapshot. (ok tt, snapshot.version);
}

abbrev pub calm : Env
calm = record {
  now_millis = λ k. 1000 + k;
  uuid = λ k. 500 + k;
  gen_bool = λ k tenths. true;
  transport = λ k. ok tt;
  connected = λ k. ok (1 ∷ 2 ∷ 3 ∷ []);
  store = λ k. ok tt;
  load = λ k. ok none;
  to_bytes = λ p. ok [];
  from_bytes = λ b. err (internal (text "no state"));
}

abbrev pub cluster : ClusterConfig
cluster = record { node_id = 1; all_nodes = 1 ∷ 2 ∷ 3 ∷ []; quorum_size = 2 }

abbrev pub engine : RabiaEngine ℕ
engine = new_engine 1 default_config cluster 0

abbrev pub two_commands : CommandBatch
two_commands = record {
  id = 5;
  commands = record { id = 6; payload = 65 ∷ [] } ∷ record { id = 7; payload = 66 ∷ [] } ∷ [];
  timestamp = 1000;
}

-- A state in the fifth phase, with phases 1 and 4 on file.
abbrev pub fifth : EngineState
fifth = record (init 2) {
  current_phase = 5;
  last_committed_phase = 3;
  phases = (1, new_phase 10 1) ∷ (4, new_phase 40 4) ∷ [];
}

abbrev pub fifth_engine : RabiaEngine ℕ
fifth_engine = record engine { engine_state = fifth }
