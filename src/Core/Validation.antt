-- ===== src/Core/Validation.antt =====
-- rabia-core/src/validation.rs. Every check that fails returns its error at once. The readings of
-- the clock are arguments: `now` of the message's check, `batch_now i` of the i-th batch in it.
pub mod Accepts
pub mod Messages
use rabia.Base.{
  ℕ, suc, ◌+◌, ◌-◌, ◌*◌, Bool, true, false, List, [], ◌∷◌, Option, none, some, ltb, leb,
  if◌then◌else◌, length, is_empty, u64_mod,
}
use rabia.Core.Types.{NodeId, BatchId, PhaseId, Command, CommandBatch}
use rabia.Core.Error.{
  RabiaError, internal, invalid_state_transition, Result, ok, err, ◌>>=◌, ◌>>◌, raise_if, text,
  format,
}
use rabia.Core.Message.{
  ProtocolMessage, MessageType, propose, vote_round1, vote_round2, decision, sync_request,
  sync_response, new_batch, heart_beat, quorum_notification, HeartBeatMessage,
}

pub record ValidationConfig : Type 0 where
  pub max_batch_size : ℕ
  pub max_command_size : ℕ
  pub max_clock_skew_ms : ℕ
  pub min_phase_id : ℕ
  pub max_phase_id : ℕ

-- `ValidationConfig::default`
abbrev pub config : ValidationConfig
config = record {
  max_batch_size = 1000;
  max_command_size = 1048576;
  max_clock_skew_ms = 60000;
  min_phase_id = 0;
  max_phase_id = 18446744073709551615;
}

unfoldable pub validate_phase_id : PhaseId → Result (Unit {0})
validate_phase_id value = do
  raise_if (ltb value config.min_phase_id) (
      internal (
        format "Phase ID {} is out of valid range [{}, {}]"
          (value ∷ config.min_phase_id ∷ config.max_phase_id ∷ [])))
  raise_if (ltb config.max_phase_id value) (
      internal (
        format "Phase ID {} is out of valid range [{}, {}]"
          (value ∷ config.min_phase_id ∷ config.max_phase_id ∷ [])))

-- Every UUID passes.
abbrev pub validate_batch_id : BatchId → Result (Unit {0})
validate_batch_id b = ok tt

abbrev pub validate_node_id : NodeId → Result (Unit {0})
validate_node_id n = ok tt

-- The body of the loop over the commands.
unfoldable pub validate_command : Command → Result (Unit {0})
validate_command c = do
  raise_if (ltb config.max_command_size (length c.payload)) (
      internal (
        format "Command size {} exceeds maximum {}"
          (length c.payload ∷ config.max_command_size ∷ [])))
  raise_if (is_empty c.payload) (internal (text "Command data cannot be empty"))

unfoldable pub validate_commands : List Command → Result (Unit {0})
validate_commands [] = ok tt
validate_commands (c ∷ cs) = do validate_command c; validate_commands cs

-- `CommandBatch::validate`; the checksum that it computes is compared with nothing.
unfoldable pub validate_batch : ℕ → CommandBatch → Result (Unit {0})
validate_batch now b = do
  raise_if (ltb config.max_batch_size (length b.commands)) (
      internal (
        format "Batch size {} exceeds maximum {}" (length b.commands ∷ config.max_batch_size ∷ [])))
  raise_if (is_empty b.commands) (internal (text "Batch cannot be empty"))
  validate_commands b.commands
  raise_if (ltb (now + config.max_clock_skew_ms) b.timestamp)
      (internal (format "Batch timestamp {} is too far in the future" (b.timestamp ∷ [])))

abbrev pub validate_optional : ℕ → Option CommandBatch → Result (Unit {0})
validate_optional now none = ok tt
validate_optional now (some b) = validate_batch now b

-- The loop over the pending batches of a sync response.
unfoldable pub validate_pending : (ℕ → ℕ) → ℕ → List (BatchId × CommandBatch) → Result (Unit {0})
validate_pending batch_now i [] = ok tt
validate_pending batch_now i ((id, b) ∷ rest) = do
  validate_batch_id id
  validate_batch (batch_now i) b
  validate_pending batch_now (suc i) rest

unfoldable pub validate_nodes : List NodeId → Result (Unit {0})
validate_nodes [] = ok tt
validate_nodes (n ∷ ns) = do validate_node_id n; validate_nodes ns

unfoldable pub validate_heartbeat : HeartBeatMessage → Result (Unit {0})
validate_heartbeat h = do
  validate_phase_id h.current_phase
  validate_phase_id h.last_committed_phase
  raise_if (ltb h.current_phase h.last_committed_phase) (
      invalid_state_transition (format "committed={}" (h.last_committed_phase ∷ []))
        (format "current={}" (h.current_phase ∷ [])))

-- The match on the kind of message.
unfoldable pub validate_body : (ℕ → ℕ) → MessageType → Result (Unit {0})
validate_body batch_now (propose m) = do
  validate_phase_id m.phase_id
  validate_batch_id m.batch_id
  validate_optional (batch_now 0) m.batch
validate_body batch_now (vote_round1 m) = do
  validate_phase_id m.phase_id
  validate_batch_id m.batch_id
  validate_node_id m.voter_id
validate_body batch_now (vote_round2 m) = do
  validate_phase_id m.phase_id
  validate_batch_id m.batch_id
  validate_node_id m.voter_id
  raise_if (is_empty m.round1_votes) (internal (text "Round 2 vote must include round 1 votes"))
validate_body batch_now (decision m) = do
  validate_phase_id m.phase_id
  validate_batch_id m.batch_id
  validate_optional (batch_now 0) m.batch
validate_body batch_now (sync_request m) = validate_phase_id m.requester_phase
validate_body batch_now (sync_response m) = do
  validate_phase_id m.responder_phase
  validate_pending batch_now 0 m.pending_batches
validate_body batch_now (new_batch m) = do
  validate_batch (batch_now 0) m.batch
  validate_node_id m.originator
validate_body batch_now (heart_beat m) = validate_heartbeat m
validate_body batch_now (quorum_notification m) = validate_nodes m.active_nodes

-- `ProtocolMessage::validate`
unfoldable pub validate : ℕ → (ℕ → ℕ) → ProtocolMessage → Result (Unit {0})
validate now batch_now m = do
  raise_if (ltb (now + config.max_clock_skew_ms) m.timestamp) (
      internal (
        format "Message timestamp {} is too far in the future (current: {})"
          (m.timestamp ∷ now ∷ [])))
  raise_if (ltb (config.max_clock_skew_ms * 10) (now - m.timestamp))
      (internal (format "Message timestamp {} is too old (current: {})" (m.timestamp ∷ now ∷ [])))
  validate_body batch_now m.message_type

unfoldable pub validate_message_sequence : PhaseId → PhaseId → Result (Unit {0})
validate_message_sequence previous_phase current_phase =
    if leb current_phase previous_phase
    then err (
        invalid_state_transition (format "phase={}" (previous_phase ∷ []))
          (format "phase={}" (current_phase ∷ [])))
    else raise_if (ltb 1000 (current_phase - previous_phase)) (
        internal
          (format "Phase jump {} is suspiciously large" ((current_phase - previous_phase) ∷ [])))
