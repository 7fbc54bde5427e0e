-- ===== src/Core/Message.antt =====
-- rabia-core/src/messages.rs, the protocol messages, and rabia-core/src/state_machine.rs,
-- `Snapshot`.
use rabia.Base.{ℕ, Bool, List, Option, none, some}
use rabia.Base.Assoc.{Assoc}
use rabia.Core.Types.{NodeId, PhaseId, BatchId, Bytes, StateValue, CommandBatch}

pub record Snapshot : Type 0 where
  pub version : ℕ
  pub payload : Bytes
  pub checksum : ℕ

pub record ProposeMessage : Type 0 where
  pub phase_id : PhaseId
  pub batch_id : BatchId
  pub value : StateValue
  pub batch : Option CommandBatch

pub record VoteRound1Message : Type 0 where
  pub phase_id : PhaseId
  pub batch_id : BatchId
  pub vote : StateValue
  pub voter_id : NodeId

pub record VoteRound2Message : Type 0 where
  pub phase_id : PhaseId
  pub batch_id : BatchId
  pub vote : StateValue
  pub voter_id : NodeId
  pub round1_votes : Assoc StateValue

pub record DecisionMessage : Type 0 where
  pub phase_id : PhaseId
  pub batch_id : BatchId
  pub decision : StateValue
  pub batch : Option CommandBatch

pub record SyncRequestMessage : Type 0 where
  pub requester_phase : PhaseId
  pub requester_state_version : ℕ

pub record SyncResponseMessage : Type 0 where
  pub responder_phase : PhaseId
  pub responder_state_version : ℕ
  pub state_snapshot : Option Snapshot
  pub pending_batches : List (BatchId × CommandBatch)
  pub committed_phases : List (PhaseId × BatchId × StateValue)

pub record NewBatchMessage : Type 0 where
  pub batch : CommandBatch
  pub originator : NodeId

pub record HeartBeatMessage : Type 0 where
  pub current_phase : PhaseId
  pub last_committed_phase : PhaseId
  pub active : Bool

pub record QuorumNotificationMessage : Type 0 where
  pub has_quorum : Bool
  pub active_nodes : List NodeId

pub data MessageType : Type 0 where
  propose : ProposeMessage → MessageType
  vote_round1 : VoteRound1Message → MessageType
  vote_round2 : VoteRound2Message → MessageType
  decision : DecisionMessage → MessageType
  sync_request : SyncRequestMessage → MessageType
  sync_response : SyncResponseMessage → MessageType
  new_batch : NewBatchMessage → MessageType
  heart_beat : HeartBeatMessage → MessageType
  quorum_notification : QuorumNotificationMessage → MessageType

-- `to` is `none` for a broadcast.
pub record ProtocolMessage : Type 0 where
  pub id : ℕ
  pub from : NodeId
  pub to : Option NodeId
  pub timestamp : ℕ
  pub message_type : MessageType

-- `ProtocolMessage::new`, from the identifier and the time that it asks for.
abbrev pub new : ℕ → ℕ → NodeId → Option NodeId → MessageType → ProtocolMessage
new uuid now from to body = record {
  id = uuid;
  from = from;
  to = to;
  timestamp = now;
  message_type = body;
}

-- The constructors by kind: who the message is for follows from the kind.
abbrev pub propose_message : ℕ → ℕ → NodeId → ProposeMessage → ProtocolMessage
propose_message uuid now from m = new uuid now from none (propose m)

abbrev pub vote_round1_message : ℕ → ℕ → NodeId → NodeId → VoteRound1Message → ProtocolMessage
vote_round1_message uuid now from to m = new uuid now from (some to) (vote_round1 m)

abbrev pub vote_round2_message : ℕ → ℕ → NodeId → NodeId → VoteRound2Message → ProtocolMessage
vote_round2_message uuid now from to m = new uuid now from (some to) (vote_round2 m)

abbrev pub decision_message : ℕ → ℕ → NodeId → DecisionMessage → ProtocolMessage
decision_message uuid now from m = new uuid now from none (decision m)

abbrev pub sync_request_message : ℕ → ℕ → NodeId → NodeId → SyncRequestMessage → ProtocolMessage
sync_request_message uuid now from to m = new uuid now from (some to) (sync_request m)

abbrev pub sync_response_message : ℕ → ℕ → NodeId → NodeId → SyncResponseMessage → ProtocolMessage
sync_response_message uuid now from to m = new uuid now from (some to) (sync_response m)

abbrev pub new_batch_message : ℕ → ℕ → NodeId → NewBatchMessage → ProtocolMessage
new_batch_message uuid now from m = new uuid now from none (new_batch m)
