-- ===== src/Core/Validation/Messages.antt =====
-- `ProtocolMessage::validate` of rabia-core/src/validation.rs, and what a good message is.
use rabia.Base.{
  ℕ, suc, ◌+◌, ◌≤◌, ◌<◌, ◌≡◌, refl, ◌↔◌, List, [], ◌∷◌, Option, none, some, arith, length,
  is_empty-eq, u64_mod,
}
use rabia.Core.Types.{BatchId, PhaseId, NodeId, CommandBatch}
use rabia.Core.Error.{Result, ok, err, ◌>>◌}
use rabia.Core.Message.{
  ProtocolMessage, MessageType, propose, vote_round1, vote_round2, decision, sync_request,
  sync_response, new_batch, heart_beat, quorum_notification,
}
use rabia.Core.Validation.{
  validate_phase_id, validate_optional, validate_pending, validate_nodes, validate_heartbeat,
  validate_body, validate,
}
use rabia.Core.Validation.Accepts.{IsBatch, validate_batch_iff}

abbrev pub IsOptional : ℕ → Option CommandBatch → Type 0
IsOptional now none = Unit
IsOptional now (some b) = IsBatch now b

abbrev pub ArePending : (ℕ → ℕ) → ℕ → List (BatchId × CommandBatch) → Type 0
ArePending batch_now i [] = Unit
ArePending batch_now i ((id, b) ∷ rest) =
    IsBatch (batch_now i) b × ArePending batch_now (suc i) rest

-- What each kind of message must satisfy. Phases must fit in 64 bits, which every decoded one does.
abbrev pub IsBody : (ℕ → ℕ) → MessageType → Type 0
IsBody batch_now (propose m) = (m.phase_id < u64_mod) × IsOptional (batch_now 0) m.batch
IsBody batch_now (vote_round1 m) = m.phase_id < u64_mod
IsBody batch_now (vote_round2 m) = (m.phase_id < u64_mod) × (0 < length m.round1_votes)
IsBody batch_now (decision m) = (m.phase_id < u64_mod) × IsOptional (batch_now 0) m.batch
IsBody batch_now (sync_request m) = m.requester_phase < u64_mod
IsBody batch_now (sync_response m) =
    (m.responder_phase < u64_mod) × ArePending batch_now 0 m.pending_batches
IsBody batch_now (new_batch m) = IsBatch (batch_now 0) m.batch
IsBody batch_now (heart_beat m) =
    (m.current_phase < u64_mod) × (m.last_committed_phase ≤ m.current_phase)
IsBody batch_now (quorum_notification m) = Unit

validate_phase_id_iff : (p : PhaseId) → (validate_phase_id p ≡ ok tt) ↔ (p < u64_mod)
unfolding validate_phase_id
validate_phase_id_iff p = (λ h. ground arith, λ h. ground arith)

validate_optional_iff :
    (now : ℕ) (b : Option CommandBatch) → (validate_optional now b ≡ ok tt) ↔ IsOptional now b
validate_optional_iff now none = (λ h. tt, λ h. refl)
validate_optional_iff now (some b) = validate_batch_iff now b

validate_pending_iff :
    (batch_now : ℕ → ℕ) (i : ℕ) (bs : List (BatchId × CommandBatch))
    → (validate_pending batch_now i bs ≡ ok tt) ↔ ArePending batch_now i bs
unfolding validate_pending
validate_pending_iff batch_now i [] = (λ h. tt, λ h. refl)
validate_pending_iff batch_now i ((id, b) ∷ bs) =
    let head = validate_batch_iff (batch_now i) b in
    let rest = validate_pending_iff batch_now (suc i) bs in
    (λ h. (head.0 (ground arith), rest.0 (ground arith)), λ h. rw (head.1 h.0) (rest.1 h.1))

validate_nodes_lem : (ns : List NodeId) → validate_nodes ns ≡ ok tt
unfolding validate_nodes
validate_nodes_lem [] = refl
validate_nodes_lem (n ∷ ns) = validate_nodes_lem ns

-- Two checks in a row pass when both do.
both_pass :
    {P Q : Type 0} (m n : Result (Unit {0}))
    → (m ≡ ok tt) ↔ P
    → (n ≡ ok tt) ↔ Q
    → ((m >> n) ≡ ok tt) ↔ (P × Q)
both_pass (ok u) n p q = (λ h. (p.0 refl, q.0 h), λ h. q.1 h.1)
both_pass (err e) n p q = (λ h. absurd (cc), λ h. absurd (ground (arith, p.1 h.0)))

validate_body_iff :
    (batch_now : ℕ → ℕ) (m : MessageType) → (validate_body batch_now m ≡ ok tt) ↔ IsBody batch_now m
unfolding validate_body validate_heartbeat
validate_body_iff batch_now (propose m) =
    both_pass _ _ (validate_phase_id_iff m.phase_id) (validate_optional_iff (batch_now 0) m.batch)
validate_body_iff batch_now (vote_round1 m) =
    let phase = validate_phase_id_iff m.phase_id in
    (λ h. phase.0 (ground arith), λ h. rw (phase.1 h))
validate_body_iff batch_now (vote_round2 m) =
    let nonempty = is_empty-eq m.round1_votes in
    both_pass _ _ (validate_phase_id_iff m.phase_id) (λ h. ground arith, λ h. ground arith)
validate_body_iff batch_now (decision m) =
    both_pass _ _ (validate_phase_id_iff m.phase_id) (validate_optional_iff (batch_now 0) m.batch)
validate_body_iff batch_now (sync_request m) = validate_phase_id_iff m.requester_phase
validate_body_iff batch_now (sync_response m) =
    both_pass _ _ (validate_phase_id_iff m.responder_phase)
      (validate_pending_iff batch_now 0 m.pending_batches)
validate_body_iff batch_now (new_batch m) =
    let batch = validate_batch_iff (batch_now 0) m.batch in
    (λ h. batch.0 (ground arith), λ h. rw (batch.1 h))
validate_body_iff batch_now (heart_beat m) =
    let current = validate_phase_id_iff m.current_phase in
    let committed = validate_phase_id_iff m.last_committed_phase in
    (λ h. ground (arith, current.0), λ h. ground (arith, current.1 h.0, committed.1))
validate_body_iff batch_now (quorum_notification m) =
    (λ h. tt, λ h. validate_nodes_lem m.active_nodes)

-- A message is accepted exactly when it is stamped at most a minute ahead of the clock and at most
-- ten minutes behind it, and its body is well formed for its kind.
pub validate_iff :
    (now : ℕ) (batch_now : ℕ → ℕ) (m : ProtocolMessage)
    → (validate now batch_now m ≡ ok tt) ↔ (
        (m.timestamp ≤ now + 60000)
        × (now ≤ m.timestamp + 600000)
        × IsBody batch_now m.message_type)
unfolding validate
validate_iff now batch_now m =
    let body = validate_body_iff batch_now m.message_type in
    (λ h. (ground arith, ground arith, body.0 (ground arith)), λ h. ground (arith, body.1 h.2))
