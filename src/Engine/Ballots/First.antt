-- ===== src/Engine/Ballots/First.antt =====
-- The answer to a proposal: `handle_propose` of rabia-engine/src/engine.rs.
use rabia.Base.{ℕ, suc, ◌≡◌, refl, Bool, true, false, Option, none, some, ◌∷◌, if◌then◌else◌}
use rabia.Core.Types.{NodeId, StateValue, CommandBatch}
use rabia.Core.Error.{ok}
use rabia.Core.Message.{ProposeMessage, ProtocolMessage, vote_round1_message}
use rabia.Engine.State.{get_phase, add_pending_batch}
use rabia.Engine.Runtime.{Env, send_to, RabiaEngine, M, ◌>>=◌, ◌>>◌}
use rabia.Engine.Voting.{
  determine_round1_vote, keep_batch, cast_vote, send_round1, answer_proposal, handle_propose,
}
use rabia.Engine.Ballots.{earlier, IsAnswer, Answers, bind_answer, vote_on-Answers}

-- The vote that `handle_propose` sends.
abbrev pub answer : NodeId → NodeId → ProposeMessage → ℕ → ℕ → StateValue → ProtocolMessage
answer me from m id now vote =
    vote_round1_message id now me from
      (record { phase_id = m.phase_id; batch_id = m.batch_id; vote = vote; voter_id = me })

-- A vote of the first round is sent, and one that is allowed.
abbrev pub SendsVote :
    {S : Type 0} → NodeId → ProposeMessage → RabiaEngine S → RabiaEngine S → Type 0
SendsVote from m e f =
    (id now : ℕ) × (vote : StateValue) × (f.sent
      ≡ send_to from (answer e.node_id from m id now vote) ∷ e.sent)
    × IsAnswer (earlier (get_phase m.phase_id e.engine_state)) m.value vote

module _ {S : Type 0} (env : Env) (from : NodeId) where
  determined :
      (m : ProposeMessage) (e : RabiaEngine S)
      → Answers
          (IsAnswer (earlier (get_phase m.phase_id e.engine_state)) m.value)
          (determine_round1_vote env m)
          e
  unfolding determine_round1_vote ◌>>=◌
  determined m e =
      let a = vote_on-Answers env (get_phase m.phase_id e.engine_state) m.value e in
      record { value = a.value; questions = a.questions; outcome = a.outcome; good = a.good }

  send_round1_sent :
      (m : ProposeMessage) (vote : StateValue) (e : RabiaEngine S)
      → IsAnswer (earlier (get_phase m.phase_id e.engine_state)) m.value vote
      → SendsVote from m e (send_round1 env from m vote e).1
  unfolding send_round1 ◌>>◌
  send_round1_sent m vote e h = (env.uuid e.asked, env.now_millis (suc e.asked), vote, refl, h)

  cast_vote_sent :
      (m : ProposeMessage) (e : RabiaEngine S) → SendsVote from m e (cast_vote env from m e).1
  unfolding cast_vote
  cast_vote_sent m e =
      let a = determined m e in
      bind_answer _ (SendsVote from m e) (determine_round1_vote env m) (send_round1 env from m) e a
        (send_round1_sent m a.value (record e { asked = a.questions }) a.good)

  kept_then_sent :
      (b : Option CommandBatch) (m : ProposeMessage) (e : RabiaEngine S)
      → SendsVote from m e ((keep_batch env b from >> cast_vote env from m) e).1
  unfolding ◌>>◌ add_pending_batch
  kept_then_sent none m e = cast_vote_sent m e
  kept_then_sent (some b) m e =
      let s = (add_pending_batch (env.now_millis e.asked) b from e.engine_state).1 in
      cast_vote_sent m (record e { asked = suc e.asked; engine_state = s })

pub if_true :
    {S A : Type 0} (P : RabiaEngine S → Type 0) (b : Bool) (m k : M S A) (e : RabiaEngine S)
    → b ≡ true
    → P (m e).1
    → P ((if b then m else k) e).1
if_true P true m k e h p = p
if_true P false m k e h p = absurd (cc h)

-- A proposal that comes while there is a quorum is answered by exactly one message, a first-round
-- vote to where it came from. Without an earlier proposal on file the vote is for the value
-- proposed or open; with one it is for the value if the two agree, and open if they do not.
pub handle_propose_sent :
    {S : Type 0} (env : Env) (from : NodeId) (m : ProposeMessage) (e : RabiaEngine S)
    → e.engine_state.has_quorum ≡ true
    → SendsVote from m e (handle_propose env from m e).1
unfolding handle_propose answer_proposal ◌>>=◌
handle_propose_sent env from m e h =
    if_true (SendsVote from m e) e.engine_state.has_quorum _ _ e h
      (kept_then_sent env from m.batch m e)

-- Without a quorum a proposal is ignored: nothing changes and nothing is sent.
pub handle_propose_ignored :
    {S : Type 0} (env : Env) (from : NodeId) (m : ProposeMessage) (e : RabiaEngine S)
    → e.engine_state.has_quorum ≡ false
    → handle_propose env from m e ≡ (ok tt, e)
unfolding handle_propose ◌>>=◌
handle_propose_ignored env from m e h = rw h refl
