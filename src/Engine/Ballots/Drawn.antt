-- ===== src/Engine/Ballots/Drawn.antt =====
-- The answers of a running engine to proposals (rabia-engine/src/engine.rs): no phase is on file, so
-- a vote is drawn anew for every proposal.
use rabia.Base.{
  is_some, ℕ, suc, ◌≡◌, refl, ap, true, [], Option, none, some, ◌∷◌, if◌then◌else◌, arith,
}
use rabia.Core.Types.{NodeId, StateValue, v0, v1, v_question, CommandBatch}
use rabia.Base.Assoc.{lookup}
use rabia.Core.Message.{ProposeMessage}
use rabia.Engine.State.{update_phase, increment_version}
use rabia.Engine.Runtime.{Env, Packet, send_to, RabiaEngine, ◌>>◌}
use rabia.Engine.Voting.{send_round1}
use rabia.Engine.Ballots.First.{answer}

-- The vote for a value, with the draw that is the k-th question, and the questions after it.
abbrev pub drawn_vote : Env → ℕ → StateValue → StateValue
drawn_vote env k v0 = if env.gen_bool k 7 then v0 else v_question
drawn_vote env k v1 = if env.gen_bool k 8 then v1 else v_question
drawn_vote env k v_question = v_question

abbrev pub after_draw : ℕ → StateValue → ℕ
after_draw k v0 = suc k
after_draw k v1 = suc k
after_draw k v_question = k

-- The clock is asked once for a batch that comes with the proposal.
abbrev pub after_batch : Option CommandBatch → ℕ → ℕ
after_batch none k = k
after_batch (some b) k = suc k

-- The answer to a proposal from the k-th question on.
abbrev pub ballot : Env → NodeId → NodeId → ProposeMessage → ℕ → Packet
ballot env me from m k =
    let j = after_draw k m.value in
    send_to from (answer me from m (env.uuid j) (env.now_millis (suc j)) (drawn_vote env k m.value))

-- An engine that can answer, without a phase on file.
abbrev IsBlank : {S : Type 0} → RabiaEngine S → Type 0
IsBlank e = (e.engine_state.phases ≡ []) × (e.engine_state.has_quorum ≡ true)

-- It has sent one packet, and can answer again.
abbrev Sends : {S : Type 0} → RabiaEngine S → Packet → RabiaEngine S → Type 0
Sends e p f = (f.sent ≡ p ∷ e.sent) × IsBlank f × (f.node_id ≡ e.node_id)

module _ {S : Type 0} (env : Env) (from : NodeId) where
  sent :
      (m : ProposeMessage) (k : ℕ) (e : RabiaEngine S)
      → IsBlank e
      → Sends e
          (send_to from (
            answer e.node_id from m
              (env.uuid e.asked)
              (env.now_millis (suc e.asked))
              (drawn_vote env k m.value)))
          (send_round1 env from m (drawn_vote env k m.value) e).1
  unfolding send_round1 ◌>>◌ update_phase increment_version
  sent m k e h =
      let none_there = ap (λ d. is_some (lookup m.phase_id d)) h.0 in
      (refl, (ground (arith, none_there, h.0), ground (arith, none_there, h.1)), refl)
