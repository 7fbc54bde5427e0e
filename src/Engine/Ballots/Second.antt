-- ===== src/Engine/Ballots/Second.antt =====
-- The vote of the second round: `proceed_to_round2` of rabia-engine/src/engine.rs.
use rabia.Base.{ℕ, suc, ◌≡◌, refl, Option, none, some, ◌∷◌}
use rabia.Base.Assoc.{Assoc}
use rabia.Core.Types.{NodeId, BatchId, PhaseId, StateValue}
use rabia.Core.Message.{ProtocolMessage, vote_round2_message}
use rabia.Core.Phase.{add_round2_vote}
use rabia.Engine.State.{get_phase, update_phase}
use rabia.Engine.Runtime.{Env, broadcast, RabiaEngine, ◌>>=◌, ◌>>◌}
use rabia.Engine.Voting.{batch_of, send_round2, cast_round2, round2_vote, proceed_to_round2}
use rabia.Engine.Ballots.{IsBinding, bind_answer, round2_vote-Answers}

-- The second-round vote of a node.
abbrev pub second_vote :
    NodeId → PhaseId → BatchId → Assoc StateValue → ℕ → ℕ → StateValue → ProtocolMessage
second_vote me phase_id batch_id votes id now vote = vote_round2_message id now me me (record {
  phase_id = phase_id;
  batch_id = batch_id;
  vote = vote;
  voter_id = me;
  round1_votes = votes;
})

-- A vote of the second round is sent, and one that is binding.
abbrev pub SendsSecond :
    {S : Type 0} → PhaseId → StateValue → Assoc StateValue → RabiaEngine S → RabiaEngine S → Type 0
SendsSecond phase_id result votes e f =
    (id now : ℕ) × (batch_id : BatchId) × (vote : StateValue) × (f.sent
      ≡ broadcast (second_vote e.node_id phase_id batch_id votes id now vote) (some e.node_id)
        ∷ e.sent)
    × IsBinding result vote

send_round2_sent :
    {S : Type 0} (env : Env) (phase_id : PhaseId) (result vote : StateValue)
    (votes : Assoc StateValue) (known : Option BatchId) (e : RabiaEngine S)
    → IsBinding result vote
    → SendsSecond phase_id result votes e (send_round2 env phase_id vote votes known e).1
unfolding ◌>>=◌
send_round2_sent env phase_id result vote votes none e h =
    (env.uuid (suc e.asked), env.now_millis (suc (suc e.asked)), env.uuid e.asked, vote, refl, h)
send_round2_sent env phase_id result vote votes (some b) e h =
    (env.uuid e.asked, env.now_millis (suc e.asked), b, vote, refl, h)

cast_round2_sent :
    {S : Type 0} (env : Env) (phase_id : PhaseId) (result vote : StateValue)
    (votes : Assoc StateValue) (e : RabiaEngine S)
    → IsBinding result vote
    → SendsSecond phase_id result votes e (cast_round2 env phase_id votes vote e).1
unfolding cast_round2 ◌>>◌
cast_round2_sent env phase_id result vote votes e h =
    let s = update_phase phase_id (add_round2_vote e.node_id vote) e.engine_state in
    send_round2_sent env phase_id result vote votes (batch_of (get_phase phase_id s))
      (record e { engine_state = s }) h

-- What follows the first round is one broadcast, a second-round vote that carries the votes it
-- rests on: for the majority of the first round if that is v0 or v1, else for v0 or v1, never
-- open.
pub proceed_to_round2_sent :
    {S : Type 0} (env : Env) (phase_id : PhaseId) (result : StateValue) (votes : Assoc StateValue)
    (e : RabiaEngine S)
    → SendsSecond phase_id result votes e (proceed_to_round2 env phase_id result votes e).1
unfolding proceed_to_round2
proceed_to_round2_sent env phase_id result votes e =
    let a = round2_vote-Answers env result votes e in
    bind_answer (IsBinding result) (SendsSecond phase_id result votes e)
      (round2_vote env result votes) (cast_round2 env phase_id votes) e a
      (cast_round2_sent env phase_id result a.value votes (record e { asked = a.questions }) a.good)
