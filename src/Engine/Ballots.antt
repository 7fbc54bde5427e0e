-- ===== src/Engine/Ballots.antt =====
-- What a node may vote, by rabia-engine/src/engine.rs: in the first round in answer to a proposal,
-- in the second on the outcome of the first; and what a running engine answers to proposals.
pub mod First
pub mod Second
pub mod Drawn
use mathlib.Core.Path.{subst}
use rabia.Base.{
  sym, ap, ℕ, suc, ◌≡◌, refl, ◌⊎◌, inl, inr, Bool, true, false, Option, none, some, ◌∷◌,
  if◌then◌else◌, ltb,
}
use rabia.Base.Assoc.{Assoc, values}
use rabia.Core.Types.{
  NodeId, BatchId, PhaseId, StateValue, v0, v1, v_question, value_eq, CommandBatch,
}
use rabia.Core.Error.{ok}
use rabia.Core.Message.{ProposeMessage, ProtocolMessage, vote_round1_message, vote_round2_message}
use rabia.Core.Phase.{PhaseData, add_round2_vote}
use rabia.Core.Phase.Count.{votes_for}
use rabia.Engine.State.{get_phase, update_phase, add_pending_batch}
use rabia.Engine.Runtime.{Env, send_to, broadcast, RabiaEngine, M, ◌>>=◌, ◌>>◌}
use rabia.Engine.Voting.{
  batch_of, draw, randomized_vote, vote_on, determine_round1_vote, keep_batch, cast_vote,
  send_round1, send_round2, cast_round2, answer_proposal, handle_propose,
  determine_round2_vote_for_question, round2_vote, proceed_to_round2,
}

-- The value that a node has on file for a phase.
abbrev pub earlier : Option PhaseData → Option StateValue
earlier none = none
earlier (some p) = p.proposed_value

-- The votes allowed in answer to a proposal of `value`: without an earlier proposal the value or
-- open, else the value where the two agree and open where they do not.
abbrev pub IsAnswer : Option StateValue → StateValue → StateValue → Type 0
IsAnswer none value vote = (vote ≡ value) ⊎ (vote ≡ v_question)
IsAnswer (some x) value vote = vote ≡ (if value_eq x value then value else v_question)

-- The votes allowed in the second round: the majority of the first if it had one, else v0 or v1.
abbrev pub IsBinding : StateValue → StateValue → Type 0
IsBinding v_question vote = (vote ≡ v0) ⊎ (vote ≡ v1)
IsBinding v vote = vote ≡ v

-- A computation that returns a value with a property and does nothing but ask.
pub record Answers {S A : Type 0} (P : A → Type 0) (m : M S A) (e : RabiaEngine S) : Type 0 where
  pub value : A
  pub questions : ℕ
  pub outcome : m e ≡ (ok value, record e { asked = questions })
  pub good : P value

pub bind_answer :
    {S A B : Type 0} (P : A → Type 0) (Q : RabiaEngine S → Type 0) (m : M S A) (f : A → M S B)
    (e : RabiaEngine S) (a : Answers P m e)
    → Q (f a.value (record e { asked = a.questions })).1
    → Q ((m >>= f) e).1
unfolding ◌>>=◌
bind_answer {S = S} P Q m f e a h =
    subst (λ r. Q r.1) (sym (ap (λ x. ◌>>=◌ (λ (_ : RabiaEngine S). x) f e) a.outcome)) h

module _ {S : Type 0} (env : Env) where
  draw-Answers :
      (P : StateValue → Type 0) (n : ℕ) (v w : StateValue) (e : RabiaEngine S)
      → P v
      → P w
      → Answers P (draw env n v w) e
  unfolding ◌>>=◌
  draw-Answers P n v w e pv pw = record {
    value = if env.gen_bool e.asked n then v else w;
    questions = suc e.asked;
    outcome = refl;
    good = either (env.gen_bool e.asked n);
  }
    where
      either : (b : Bool) → P (if b then v else w)
      either true = pv
      either false = pw

  randomized_vote-Answers :
      (v : StateValue) (e : RabiaEngine S) → Answers (IsAnswer none v) (randomized_vote env v) e
  unfolding randomized_vote ◌>>=◌
  randomized_vote-Answers v0 e =
      draw-Answers (IsAnswer none v0) 7 v0 v_question e (inl refl) (inr refl)
  randomized_vote-Answers v1 e =
      draw-Answers (IsAnswer none v1) 8 v1 v_question e (inl refl) (inr refl)
  randomized_vote-Answers v_question e = record {
    value = v_question;
    questions = e.asked;
    outcome = refl;
    good = inl refl;
  }

  vote_on_value-Answers :
      (o : Option StateValue) (p : PhaseData) (v : StateValue) (e : RabiaEngine S)
      → p.proposed_value ≡ o
      → Answers (IsAnswer o v) (vote_on env (some p) v) e
  unfolding ◌>>=◌
  vote_on_value-Answers none p v e h = rw h (randomized_vote-Answers v e)
  vote_on_value-Answers (some x) p v e h = rw h (record {
    value = if value_eq x v then v else v_question;
    questions = e.asked;
    outcome = refl;
    good = refl;
  })

  pub vote_on-Answers :
      (p : Option PhaseData) (v : StateValue) (e : RabiaEngine S)
      → Answers (IsAnswer (earlier p) v) (vote_on env p v) e
  vote_on-Answers none v e = randomized_vote-Answers v e
  vote_on-Answers (some p) v e = vote_on_value-Answers p.proposed_value p v e refl

  pub round2_vote-Answers :
      (v : StateValue) (votes : Assoc StateValue) (e : RabiaEngine S)
      → Answers (IsBinding v) (round2_vote env v votes) e
  unfolding determine_round2_vote_for_question ◌>>=◌
  round2_vote-Answers v0 votes e = record {
    value = v0;
    questions = e.asked;
    outcome = refl;
    good = refl;
  }
  round2_vote-Answers v1 votes e = record {
    value = v1;
    questions = e.asked;
    outcome = refl;
    good = refl;
  }
  round2_vote-Answers v_question votes e =
      by_counts (ltb (votes_for v0 (values votes)) (votes_for v1 (values votes)))
        (ltb (votes_for v1 (values votes)) (votes_for v0 (values votes)))
    where
      by_counts :
          (more less : Bool)
          → Answers
              (IsBinding v_question)
              (if more
                then draw env 9 v1 v0
                else if less
                then draw env 9 v0 v1
                else draw env 8 v1 v0)
              e
      by_counts true less = draw-Answers (IsBinding v_question) 9 v1 v0 e (inr refl) (inl refl)
      by_counts false true = draw-Answers (IsBinding v_question) 9 v0 v1 e (inl refl) (inr refl)
      by_counts false false = draw-Answers (IsBinding v_question) 8 v1 v0 e (inr refl) (inl refl)
