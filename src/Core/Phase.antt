-- ===== src/Core/Phase.antt =====
-- rabia-core/src/messages.rs, `PhaseData` and `PendingBatch`: what a node knows of one phase, and
-- the count of its votes. The clock's reading is an argument of what stores it.
pub mod Count
pub mod Quorum
use rabia.Base.{
  ℕ, suc, ◌+◌, ◌-◌, max, Bool, true, false, List, [], ◌∷◌, Option, none, some, leb, if◌then◌else◌,
  length, not,
}
use rabia.Base.Assoc.{Assoc, insert, values}
use rabia.Core.Types.{
  NodeId, PhaseId, BatchId, StateValue, v0, v1, v_question, value_eq, CommandBatch,
}

pub record PhaseData : Type 0 where
  pub phase_id : PhaseId
  pub batch_id : Option BatchId
  pub proposed_value : Option StateValue
  pub round1_votes : Assoc StateValue
  pub round2_votes : Assoc StateValue
  pub decision : Option StateValue
  pub batch : Option CommandBatch
  pub timestamp : ℕ
  pub is_committed : Bool

-- `PhaseData::new`
unfoldable pub new_phase : ℕ → PhaseId → PhaseData
new_phase now phase_id = record {
  phase_id = phase_id;
  batch_id = none;
  proposed_value = none;
  round1_votes = [];
  round2_votes = [];
  decision = none;
  batch = none;
  timestamp = now;
  is_committed = false;
}

unfoldable pub add_round1_vote : NodeId → StateValue → PhaseData → PhaseData
add_round1_vote voter vote p = record p { round1_votes = insert voter vote p.round1_votes }

unfoldable pub add_round2_vote : NodeId → StateValue → PhaseData → PhaseData
add_round2_vote voter vote p = record p { round2_votes = insert voter vote p.round2_votes }

-- The three counters of `count_votes`.
pub record Tally : Type 0 where
  pub v0_count : ℕ
  pub v1_count : ℕ
  pub vq_count : ℕ

abbrev pub count_one : StateValue → Tally → Tally
count_one v0 t = record t { v0_count = t.v0_count + 1 }
count_one v1 t = record t { v1_count = t.v1_count + 1 }
count_one v_question t = record t { vq_count = t.vq_count + 1 }

-- The loop over `votes.values()`.
unfoldable pub tally : List StateValue → Tally → Tally
tally [] t = t
tally (v ∷ vs) t = tally vs (count_one v t)

abbrev pub no_votes : Tally
no_votes = record { v0_count = 0; v1_count = 0; vq_count = 0 }

-- The ladder of tests that picks the result.
abbrev pub pick : ℕ → Tally → Option StateValue
pick quorum_size t =
    if leb quorum_size t.v0_count
    then some v0
    else if leb quorum_size t.v1_count
    then some v1
    else if leb quorum_size t.vq_count
    then some v_question
    else none

unfoldable pub count_votes : Assoc StateValue → ℕ → Option StateValue
count_votes votes quorum_size = pick quorum_size (tally (values votes) no_votes)

unfoldable pub has_round1_majority : ℕ → PhaseData → Option StateValue
has_round1_majority quorum_size p = count_votes p.round1_votes quorum_size

unfoldable pub has_round2_majority : ℕ → PhaseData → Option StateValue
has_round2_majority quorum_size p = count_votes p.round2_votes quorum_size

unfoldable pub total_votes : PhaseData → ℕ
total_votes p = max (length p.round1_votes) (length p.round2_votes)

unfoldable pub set_decision : StateValue → PhaseData → PhaseData
set_decision d p = record p {
  decision = some d;
  is_committed = if not (value_eq d v_question) then true else p.is_committed;
}

pub record PendingBatch : Type 0 where
  pub batch : CommandBatch
  pub originator : NodeId
  pub received_timestamp : ℕ
  pub retry_count : ℕ

-- `PendingBatch::new`
abbrev pub new_pending : ℕ → CommandBatch → NodeId → PendingBatch
new_pending now batch originator = record {
  batch = batch;
  originator = originator;
  received_timestamp = now;
  retry_count = 0;
}

unfoldable pub increment_retry : PendingBatch → PendingBatch
increment_retry p = record p { retry_count = p.retry_count + 1 }

-- A saturating difference, as `-` on ℕ is.
unfoldable pub age_millis : ℕ → PendingBatch → ℕ
age_millis now p = now - p.received_timestamp
