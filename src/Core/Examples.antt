-- ===== src/Core/Examples.antt =====
-- The theorems on votes, networks and checks at concrete inputs: a cluster of three nodes.
use rabia.Base.{◌≡◌, refl, ◌↔◌, ◌≤◌, ◌+◌, true, List, [], ◌∷◌, none, ◌==◌, if◌then◌else◌}
use rabia.Base.NodeSet.{NodeSet}
use rabia.Core.Types.{NodeId, StateValue, v1, v_question, CommandBatch}
use rabia.Core.Error.{ok}
use rabia.Core.Message.{ProtocolMessage, heart_beat}
use rabia.Core.Network.{new_cluster, NetworkMonitor}
use rabia.Core.Phase.{count_votes, tally, new_phase, add_round2_vote, has_round2_majority}
use rabia.Core.Phase.Quorum.{round2_agreement}
use rabia.Core.Validation.{validate}
use rabia.Core.Validation.Messages.{IsBody, validate_iff}

abbrev three_nodes : NodeSet
three_nodes = 1 ∷ 2 ∷ 3 ∷ []

-- Node 2 votes open, the others for v1.
abbrev ballots : NodeId → StateValue
ballots n = if n == 2 then v_question else v1

abbrev heard_by_one : List (NodeId × StateValue)
heard_by_one = (1, v1) ∷ (2, v_question) ∷ (3, v1) ∷ []

abbrev heard_by_two : List (NodeId × StateValue)
heard_by_two = (3, v1) ∷ (1, v1) ∷ (3, v1) ∷ []

round2_agreement_example : v1 ≡ v1
unfolding has_round2_majority new_cluster new_phase add_round2_vote count_votes tally
round2_agreement_example =
    round2_agreement 1 2 three_nodes ballots heard_by_one heard_by_two 7 100 200 v1 v1
      ((refl, refl), ((refl, refl), ((refl, refl), tt)))
      ((refl, refl), ((refl, refl), ((refl, refl), tt))) refl refl

abbrev monitor : NetworkMonitor
monitor = record {
  config = record { node_id = 1; all_nodes = three_nodes; quorum_size = 2 };
  connected_nodes = three_nodes;
  has_quorum = true;
}

abbrev small_batch : CommandBatch
small_batch = record {
  id = 5;
  commands = record { id = 6; payload = 65 ∷ [] } ∷ [];
  timestamp = 1000;
}

abbrev beat : ProtocolMessage
beat = record {
  id = 8;
  from = 2;
  to = none;
  timestamp = 1500;
  message_type = heart_beat (record { current_phase = 4; last_committed_phase = 3; active = true });
}

validate_iff_example :
    (validate 2000 (λ i. 2000) beat ≡ ok tt)
    ↔ ((1500 ≤ 2000 + 60000) × (2000 ≤ 1500 + 600000) × IsBody (λ i. 2000) beat.message_type)
validate_iff_example = validate_iff 2000 (λ i. 2000) beat
