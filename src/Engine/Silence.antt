-- ===== src/Engine/Silence.antt =====
-- The table of phases in rabia-engine/src/state.rs as rabia-engine/src/engine.rs uses it:
-- `update_phase` changes only a phase that is there, and `get_or_create_phase` is called nowhere.
pub mod Rules
pub mod Decisions
pub mod Votes
pub mod Turns
use rabia.Base.{ℕ, ◌≡◌, refl, List, [], ◌∷◌, Option, none, some, Bool, true, false, arith, All}
use rabia.Core.Types.{NodeId}
use rabia.Core.Error.{ok}
use rabia.Core.Message.{
  VoteRound1Message, VoteRound2Message, ProtocolMessage, MessageType, propose, vote_round1,
  vote_round2, decision, sync_request, sync_response, new_batch, heart_beat, quorum_notification,
}
use rabia.Core.Phase.{PhaseData, add_round1_vote, add_round2_vote}
use rabia.Engine.State.{EngineState, get_phase, update_phase}
use rabia.Engine.Runtime.{StateMachine, Env, Packet, send_to, broadcast, RabiaEngine, ◌>>=◌, ◌>>◌}
use rabia.Engine.Voting.{check_round1, handle_vote_round1, check_round2, handle_vote_round2}

-- Neither a vote of the second round nor a decision.
abbrev pub is_early : MessageType → Bool
is_early (vote_round2 m) = false
is_early (decision m) = false
is_early _ = true

abbrev pub message_of : Packet → ProtocolMessage
message_of (send_to n m) = m
message_of (broadcast m n) = m

abbrev pub IsEarly : Packet → Type 0
IsEarly p = is_early (message_of p).message_type ≡ true

-- No phase is on file, and nothing of the second round has been sent.
pub record IsSilent {S : Type 0} (e : RabiaEngine S) : Type 0 where
  pub no_phase : e.engine_state.phases ≡ []
  pub early : All IsEarly e.sent

update_phase_unknown :
    (p : ℕ) (f : PhaseData → PhaseData) (s : EngineState)
    → get_phase p s ≡ none
    → update_phase p f s ≡ s
unfolding update_phase
update_phase_unknown p f s h = ground arith

-- A first-round vote for a phase that is not on file changes nothing at all, and is answered by
-- nothing.
pub vote_round1_ignored :
    {S : Type 0} (env : Env) (n : NodeId) (m : VoteRound1Message) (e : RabiaEngine S)
    → get_phase m.phase_id e.engine_state ≡ none
    → handle_vote_round1 env n m e ≡ (ok tt, e)
unfolding handle_vote_round1 ◌>>◌
vote_round1_ignored env n m e h =
    rw (update_phase_unknown m.phase_id (add_round1_vote n m.vote) e.engine_state h, h) refl

-- A second-round vote for a phase that is not on file changes nothing at all, and is answered by
-- nothing.
pub vote_round2_ignored :
    {S : Type 0} (sm : StateMachine S) (env : Env) (n : NodeId) (m : VoteRound2Message)
    (e : RabiaEngine S)
    → get_phase m.phase_id e.engine_state ≡ none
    → handle_vote_round2 sm env n m e ≡ (ok tt, e)
unfolding handle_vote_round2 ◌>>◌
vote_round2_ignored sm env n m e h =
    rw (update_phase_unknown m.phase_id (add_round2_vote n m.vote) e.engine_state h, h) refl
