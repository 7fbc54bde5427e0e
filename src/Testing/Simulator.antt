-- ===== src/Testing/Simulator.antt =====
-- rabia-testing/src/network_sim.rs: a network in memory. Times are milliseconds, read before an
-- operation; a draw of the random generator is an argument: whether it falls below the loss rate, and
-- the latency. A channel is what was sent into it, newest first, with a flag for a receiver that is
-- gone. Locks are held for one operation.
pub mod Accounts
pub mod Examples
use rabia.Base.{
  ℕ, ◌+◌, ◌*◌, ◌-◌, Bool, true, false, not, ◌&&◌, ◌||◌, List, [], ◌∷◌, ◌++◌, Option, none, some,
  leb, ltb, length, filter_b, if◌then◌else◌,
}
use rabia.Base.NodeSet
use rabia.Base.NodeSet.{NodeSet}
use rabia.Base.Dict
use rabia.Base.Dict.{Dict, nat_key, insert, remove, update}
use rabia.Core.Types.{NodeId, CommandBatch}
use rabia.Core.Message.{
  ProtocolMessage, MessageType, propose, vote_round1, vote_round2, decision, sync_request,
  sync_response, new_batch, heart_beat, quorum_notification,
}

-- The probability of a partition and the bandwidth, which nothing reads, are left out, and the rate
-- of loss stands in the draws.
pub record NetworkConditions : Type 0 where
  pub latency_min : ℕ
  pub latency_max : ℕ

pub record NetworkPartition : Type 0 where
  pub partitioned_nodes : NodeSet
  pub duration : ℕ
  pub started_at : ℕ

pub record PendingMessage : Type 0 where
  pub from : NodeId
  pub to : NodeId
  pub message : ProtocolMessage
  pub deliver_at : ℕ
  pub size_bytes : ℕ

pub record NetworkStats : Type 0 where
  pub messages_sent : ℕ
  pub messages_delivered : ℕ
  pub messages_dropped : ℕ
  pub total_latency : ℕ
  pub total_bytes : ℕ

-- The sending end of a node's channel.
pub record Inbox : Type 0 where
  pub is_closed : Bool
  pub arrived : List (NodeId × ProtocolMessage)

pub record NetworkSimulator : Type 0 where
  pub nodes : Dict NodeId Inbox
  pub conditions : NetworkConditions
  pub partitions : List NetworkPartition
  pub pending_messages : List PendingMessage
  pub message_stats : NetworkStats
  pub shutdown : Bool

-- `NetworkSimulator::new`
abbrev pub new_simulator : NetworkSimulator
new_simulator = record {
  nodes = [];
  conditions = record { latency_min = 1; latency_max = 10 };
  partitions = [];
  pending_messages = [];
  message_stats = record {
    messages_sent = 0;
    messages_delivered = 0;
    messages_dropped = 0;
    total_latency = 0;
    total_bytes = 0;
  };
  shutdown = false;
}

abbrev pub add_inbox : NodeId → NetworkSimulator → NetworkSimulator
add_inbox id s = record s { nodes = insert id (record { is_closed = false; arrived = [] }) s.nodes }

abbrev pub remove_inbox : NodeId → NetworkSimulator → NetworkSimulator
remove_inbox id s = record s { nodes = remove id s.nodes }

abbrev pub update_conditions : NetworkConditions → NetworkSimulator → NetworkSimulator
update_conditions c s = record s { conditions = c }

abbrev pub create_partition : ℕ → NodeSet → ℕ → NetworkSimulator → NetworkSimulator
create_partition now nodes duration s = record s {
  partitions =
      s.partitions
      ++ record { partitioned_nodes = nodes; duration = duration; started_at = now } ∷ [];
}

abbrev pub heal_partitions : NetworkSimulator → NetworkSimulator
heal_partitions s = record s { partitions = [] }

abbrev pub is_expired : ℕ → NetworkPartition → Bool
is_expired now p = leb (p.started_at + p.duration) now

abbrev pub differ : Bool → Bool → Bool
differ true b = not b
differ false b = b

-- The nodes stand on two sides of a partition that has not expired.
abbrev pub are_nodes_partitioned : ℕ → NodeId → NodeId → List NetworkPartition → Bool
are_nodes_partitioned now a b [] = false
are_nodes_partitioned now a b (p ∷ ps) =
    not (is_expired now p)
      && differ (NodeSet.contains a p.partitioned_nodes) (NodeSet.contains b p.partitioned_nodes)
    || are_nodes_partitioned now a b ps

abbrev pub batch_bytes : Option CommandBatch → ℕ
batch_bytes none = 0
batch_bytes (some b) = length b.commands * 128

unfoldable pub estimate_message_size : ProtocolMessage → ℕ
estimate_message_size m = 64 + (elim m.message_type [
  | propose p ↦ 32 + batch_bytes p.batch
  | vote_round1 v ↦ 32
  | vote_round2 v ↦ 32 + length v.round1_votes * 16
  | decision d ↦ 32 + batch_bytes d.batch
  | sync_request r ↦ 16
  | sync_response r ↦ 64 + length r.pending_batches * 128 + length r.committed_phases * 32
  | new_batch b ↦ 32 + length b.batch.commands * 128
  | heart_beat h ↦ 24
  | quorum_notification q ↦ 16 + length q.active_nodes * 16
])

abbrev pub count_sent : NetworkSimulator → NetworkSimulator
count_sent s = record s {
  message_stats = record s.message_stats { messages_sent = s.message_stats.messages_sent + 1 };
}

abbrev pub count_dropped : NetworkSimulator → NetworkSimulator
count_dropped s = record s {
  message_stats = record s.message_stats {
    messages_dropped = s.message_stats.messages_dropped + 1;
  };
}

-- What was drawn for a message.
pub record Draw : Type 0 where
  pub is_lost : Bool
  pub latency : ℕ

unfoldable pub send_message :
    ℕ → Draw → NodeId → NodeId → ProtocolMessage → NetworkSimulator → NetworkSimulator
send_message now draw from to m s =
    if are_nodes_partitioned now from to s.partitions
    then count_dropped (count_sent s)
    else if draw.is_lost
    then count_dropped (count_sent s)
    else record (count_sent s) {
      pending_messages =
          s.pending_messages
          ++ record {
            from = from;
            to = to;
            message = m;
            deliver_at = now + draw.latency;
            size_bytes = estimate_message_size m;
          }
            ∷ [];
    }

abbrev pub arrive : PendingMessage → Inbox → Inbox
arrive m b = record b { arrived = (m.from, m.message) ∷ b.arrived }

-- A message that is due leaves the queue, and counts if its receiver is there.
abbrev pub hand_over : ℕ → PendingMessage → Option Inbox → NetworkSimulator → NetworkSimulator
hand_over now m none s = s
hand_over now m (some b) s = if b.is_closed then s else record s {
  nodes = update m.to (arrive m) s.nodes;
  message_stats = record s.message_stats {
    messages_delivered = s.message_stats.messages_delivered + 1;
    total_latency = s.message_stats.total_latency + (now - m.deliver_at);
    total_bytes = s.message_stats.total_bytes + m.size_bytes;
  };
}

-- The loop over the queue, which ends at the first message that is not due.
abbrev pub deliver_from : ℕ → List PendingMessage → NetworkSimulator → NetworkSimulator
deliver_from now [] s = record s { pending_messages = [] }
deliver_from now (m ∷ ms) s =
    let rest = deliver_from now ms (hand_over now m (Dict.get m.to s.nodes) s) in
    if leb m.deliver_at now then rest else record s { pending_messages = m ∷ ms }

unfoldable pub deliver_pending_messages : ℕ → NetworkSimulator → NetworkSimulator
deliver_pending_messages now s = deliver_from now s.pending_messages s

unfoldable pub cleanup_expired_partitions : ℕ → NetworkSimulator → NetworkSimulator
cleanup_expired_partitions now s = record s {
  partitions = filter_b (λ p. not (is_expired now p)) s.partitions;
}

-- What happens to the network, by its users and by `run_simulation`.
pub data NetworkAction : Type 0 where
  join : NodeId → NetworkAction
  leave : NodeId → NetworkAction
  set_conditions : NetworkConditions → NetworkAction
  partition : ℕ → NodeSet → ℕ → NetworkAction
  heal : NetworkAction
  send : ℕ → Draw → NodeId → NodeId → ProtocolMessage → NetworkAction
  deliver : ℕ → NetworkAction
  clean_up : ℕ → NetworkAction

abbrev pub act : NetworkAction → NetworkSimulator → NetworkSimulator
act (join id) s = add_inbox id s
act (leave id) s = remove_inbox id s
act (set_conditions c) s = update_conditions c s
act (partition now nodes duration) s = create_partition now nodes duration s
act heal s = heal_partitions s
act (send now draw from to m) s = send_message now draw from to m s
act (deliver now) s = deliver_pending_messages now s
act (clean_up now) s = cleanup_expired_partitions now s

abbrev pub act_all : List NetworkAction → NetworkSimulator → NetworkSimulator
act_all [] s = s
act_all (a ∷ rest) s = act_all rest (act a s)
