-- ===== src/Engine/Growth/Rules.antt =====
-- The steps that the handlers of rabia-engine/src/engine.rs are made of, as changes of the kind
-- `Grows`.
use rabia.Base.{ℕ, ◌≡◌, refl, Option, none, some}
use rabia.Core.Types.{NodeId, BatchId, PhaseId, StateValue, CommandBatch}
use rabia.Core.Phase.{PhaseData, set_decision, add_round1_vote, add_round2_vote}
use rabia.Engine.State.{EngineState, update_phase, add_pending_batch}
use rabia.Engine.Runtime.{Env, Packet, on_state, modify, transmit}
use rabia.Engine.Decide.{batch_id_or_new}
use rabia.Engine.Change.{Change, Steps, pure-Steps, new_uuid-Steps}
use rabia.Engine.Growth.{
  Grows, Grows-refl, Grows-trans, update_phase-Grows, add_pending_batch-Grows,
}

instance abbrev pub growth : {S : Type 0} → Change S
growth = record {
  Rel = λ e f. Grows e.engine_state f.engine_state;
  same = λ e. Grows-refl e.engine_state;
  join = λ e f g h k. Grows-trans h k;
  asks = λ e k. Grows-refl e.engine_state;
  saves = λ e k b. Grows-refl e.engine_state;
  answers = λ e rs. Grows-refl e.engine_state;
}

module _ {S : Type 0} where
  pub modify-Steps :
      (f : EngineState → EngineState)
      → ((s : EngineState) → Grows s (f s))
      → Steps (modify {S = S} f)
  unfolding modify
  modify-Steps f g = record { apply = λ e. g e.engine_state }

  pub on_state-Steps :
      {A : Type 0} (f : EngineState → A × EngineState)
      → ((s : EngineState) → Grows s (f s).1)
      → Steps (on_state {S = S} f)
  unfolding on_state
  on_state-Steps f g = record { apply = λ e. g e.engine_state }

  pub transmit-Steps : (env : Env) (p : Packet) → Steps (transmit {S = S} env p)
  unfolding transmit
  transmit-Steps env p = record { apply = λ e. Grows-refl e.engine_state }

  pub update_phase-Steps :
      (p : PhaseId) (f : PhaseData → PhaseData)
      → ((d : PhaseData) → (f d).phase_id ≡ d.phase_id)
      → Steps (modify {S = S} (update_phase p f))
  update_phase-Steps p f same = modify-Steps _ (λ s. update_phase-Grows p f s same)

  pub add_pending-Steps :
      (now : ℕ) (b : CommandBatch) (n : NodeId)
      → Steps (on_state {S = S} (add_pending_batch now b n))
  add_pending-Steps now b n = on_state-Steps _ (add_pending_batch-Grows now b n)

  pub batch_id_or_new-Steps :
      (env : Env) (b : Option BatchId) → Steps (batch_id_or_new {S = S} env b)
  batch_id_or_new-Steps env (some b) = pure-Steps b
  batch_id_or_new-Steps env none = new_uuid-Steps env

pub set_decision-phase_id :
    (v : StateValue) (d : PhaseData) → (set_decision v d).phase_id ≡ d.phase_id
unfolding set_decision
set_decision-phase_id v d = refl

pub add_round1_vote-phase_id :
    (n : NodeId) (v : StateValue) (d : PhaseData) → (add_round1_vote n v d).phase_id ≡ d.phase_id
unfolding add_round1_vote
add_round1_vote-phase_id n v d = refl

pub add_round2_vote-phase_id :
    (n : NodeId) (v : StateValue) (d : PhaseData) → (add_round2_vote n v d).phase_id ≡ d.phase_id
unfolding add_round2_vote
add_round2_vote-phase_id n v d = refl
