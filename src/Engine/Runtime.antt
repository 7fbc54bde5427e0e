-- ===== src/Engine/Runtime.antt =====
-- rabia-engine/src/engine.rs, `RabiaEngine`, and what it stands on: the traits `StateMachine`
-- (rabia-core/src/state_machine.rs), `NetworkTransport` (rabia-core/src/network.rs) and
-- `PersistenceLayer` (rabia-core/src/persistence.rs), the clock, the random generators and the
-- JSON encoding. A handler is a function in a monad of state and errors; what was changed before
-- an error stays changed.
use rabia.Base.{ℕ, suc, Bool, List, [], ◌∷◌, Option, none}
use rabia.Base.NodeSet.{NodeSet}
use rabia.Core.Types.{NodeId, PhaseId, Bytes, Command}
use rabia.Core.Error.{RabiaError, Result, ok, err}
use rabia.Core.Message.{Snapshot, ProtocolMessage}
use rabia.Core.Network.{ClusterConfig}
use rabia.Engine.State.{EngineState, EngineStatistics, init}
use rabia.Engine.Leader.{LeaderSelector, with_cluster}

-- The trait `StateMachine`, over the states `S` of an application. A failing command may have
-- changed the state.
pub record StateMachine (S : Type 0) : Type 0 where
  pub apply_command : S → Command → Result Bytes × S
  pub create_snapshot : S → Result Snapshot
  pub restore_snapshot : S → Snapshot → Result (Unit {0}) × S

-- `StateMachine::apply_commands`: stops at the first command that fails.
unfoldable pub apply_commands :
    {S : Type 0} → StateMachine S → List Command → S → Result (List Bytes) × S
apply_commands sm [] s = (ok [], s)
apply_commands sm (c ∷ cs) s =
    let (r, s') = sm.apply_command s c in
    let (rs, s'') = apply_commands sm cs s' in
    elim r [
      | err e ↦ (err e, s')
      | ok out ↦ elim rs [ err e ↦ (err e, s'') | ok outs ↦ (ok (out ∷ outs), s'') ]
    ]

-- `persistence::EngineState`, what is saved.
pub record PersistedState : Type 0 where
  pub current_phase : PhaseId
  pub last_committed_phase : PhaseId
  pub snapshot : Option Snapshot

-- The surroundings: what they answer to the k-th question. `gen_bool k n` is a draw that is true
-- with n chances in ten; `transport k` is the outcome of handing a message to the network.
pub record Env : Type 0 where
  pub now_millis : ℕ → ℕ
  pub uuid : ℕ → ℕ
  pub gen_bool : ℕ → ℕ → Bool
  pub transport : ℕ → Result (Unit {0})
  pub connected : ℕ → Result NodeSet
  pub store : ℕ → Result (Unit {0})
  pub load : ℕ → Result (Option Bytes)
  pub to_bytes : PersistedState → Result Bytes
  pub from_bytes : Bytes → Result PersistedState

-- What is handed to the network.
pub data Packet : Type 0 where
  send_to : NodeId → ProtocolMessage → Packet
  broadcast : ProtocolMessage → Option NodeId → Packet

-- What is sent back through the channel of a command.
pub data Reply : Type 0 where
  failed : RabiaError → Reply
  statistics : EngineStatistics → Reply

-- rabia-engine/src/config.rs, without the settings of the TCP network. Durations are in
-- milliseconds.
pub record RabiaConfig : Type 0 where
  pub phase_timeout : ℕ
  pub sync_timeout : ℕ
  pub max_batch_size : ℕ
  pub max_pending_batches : ℕ
  pub cleanup_interval : ℕ
  pub max_phase_history : ℕ
  pub heartbeat_interval : ℕ
  pub randomization_seed : Option ℕ
  pub max_retries : ℕ
  pub backoff_base : ℕ
  pub backoff_max : ℕ

abbrev pub default_config : RabiaConfig
default_config = record {
  phase_timeout = 5000;
  sync_timeout = 10000;
  max_batch_size = 1000;
  max_pending_batches = 100;
  cleanup_interval = 30000;
  max_phase_history = 1000;
  heartbeat_interval = 1000;
  randomization_seed = none;
  max_retries = 3;
  backoff_base = 100;
  backoff_max = 10000;
}

-- The engine. The last four fields record its dealings with the surroundings, newest first: how
-- many questions it asked, and what it handed to the network, the disk and its callers.
pub record RabiaEngine (S : Type 0) : Type 0 where
  pub node_id : NodeId
  pub config : RabiaConfig
  pub cluster_config : ClusterConfig
  pub state_machine : S
  pub engine_state : EngineState
  pub leader_selector : LeaderSelector
  pub asked : ℕ
  pub sent : List Packet
  pub saved : List Bytes
  pub replies : List Reply

-- `RabiaEngine::new`
abbrev pub new_engine : {S : Type 0} → NodeId → RabiaConfig → ClusterConfig → S → RabiaEngine S
new_engine node_id config cluster state_machine = record {
  node_id = node_id;
  config = config;
  cluster_config = cluster;
  state_machine = state_machine;
  engine_state = init cluster.quorum_size;
  leader_selector = with_cluster cluster.all_nodes;
  asked = 0;
  sent = [];
  saved = [];
  replies = [];
}

abbrev pub M : Type 0 → Type 0 → Type 0
M S A = RabiaEngine S → Result A × RabiaEngine S

module _ {S A : Type 0} where
  unfoldable pub pure : A → M S A
  pure a e = (ok a, e)

  unfoldable pub lift : Result A → M S A
  lift r e = (r, e)

  unfoldable pub gets : (EngineState → A) → M S A
  gets f e = (ok (f e.engine_state), e)

  -- An operation of the engine's state.
  unfoldable pub on_state : (EngineState → A × EngineState) → M S A
  on_state f e = let (a, s) = f e.engine_state in (ok a, record e { engine_state = s })

module _ {S : Type 0} where
  unfoldable pub modify : (EngineState → EngineState) → M S (Unit {0})
  modify f e = (ok tt, record e { engine_state = f e.engine_state })

  -- An error is logged and dropped.
  unfoldable pub ignore_error : M S (Unit {0}) → M S (Unit {0})
  ignore_error m e = let (_, e') = m e in (ok tt, e')

  unfoldable pub reply : Reply → M S (Unit {0})
  reply r e = (ok tt, record e { replies = r ∷ e.replies })

  unfoldable pub my_id : M S NodeId
  my_id e = (ok e.node_id, e)

module _ {S : Type 0} (env : Env) where
  unfoldable pub now_millis : M S ℕ
  now_millis e = (ok (env.now_millis e.asked), record e { asked = suc e.asked })

  unfoldable pub new_uuid : M S ℕ
  new_uuid e = (ok (env.uuid e.asked), record e { asked = suc e.asked })

  unfoldable pub gen_bool : ℕ → M S Bool
  gen_bool tenths e = (ok (env.gen_bool e.asked tenths), record e { asked = suc e.asked })

  unfoldable pub get_connected_nodes : M S NodeSet
  get_connected_nodes e = (env.connected e.asked, record e { asked = suc e.asked })

  -- `send_to` and `broadcast` of the network.
  unfoldable pub transmit : Packet → M S (Unit {0})
  transmit p e = (env.transport e.asked, record e { asked = suc e.asked; sent = p ∷ e.sent })

  -- `PersistenceLayer::save_state`
  unfoldable pub store_bytes : Bytes → M S (Unit {0})
  store_bytes b e = (env.store e.asked, record e { asked = suc e.asked; saved = b ∷ e.saved })

  unfoldable pub load_bytes : M S (Option Bytes)
  load_bytes e = (env.load e.asked, record e { asked = suc e.asked })

  -- A message is made from a new identifier, the time and the sender.
  unfoldable pub stamp : (ℕ → ℕ → NodeId → ProtocolMessage) → M S ProtocolMessage
  stamp make e = (
    ok (make (env.uuid e.asked) (env.now_millis (suc e.asked)) e.node_id),
    record e { asked = suc (suc e.asked) },
  )

-- A step, and the rest if it ends well. To unfold this is to unfold all that stands above.
infixl 5 ◌>>=◌ ◌>>◌
unfoldable pub ◌>>=◌ : {S A B : Type 0} → M S A → (A → M S B) → M S B
unfolding pure lift gets on_state modify ignore_error reply my_id now_millis new_uuid gen_bool
    get_connected_nodes transmit store_bytes load_bytes stamp
◌>>=◌ m f e = let (r, e') = m e in elim r [ ok a ↦ f a e' | err x ↦ (err x, e') ]

unfoldable pub ◌>>◌ : {S A B : Type 0} → M S A → M S B → M S B
unfolding ◌>>=◌
m >> k = m >>= λ _. k
