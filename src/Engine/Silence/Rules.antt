-- ===== src/Engine/Silence/Rules.antt =====
-- The steps that the handlers of rabia-engine/src/engine.rs are made of, in a silent engine.
use rabia.Base.{ℕ, ◌≡◌, [], some, true, arith}
use rabia.Core.Types.{NodeId, PhaseId}
use rabia.Core.Message.{ProtocolMessage}
use rabia.Core.Phase.{PhaseData}
use rabia.Engine.State.{EngineState, update_phase, advance_phase}
use rabia.Engine.Runtime.{
  Env, Packet, send_to, broadcast, on_state, modify, transmit, ◌>>=◌, stamp, my_id,
}
use rabia.Engine.Change.{Change, Steps, bind_stamp-Steps, bind-Steps, my_id-Steps}
use rabia.Engine.Silence.{IsEarly, IsSilent, is_early}

instance abbrev pub silence : {S : Type 0} → Change S
silence = record {
  Rel = λ e f. IsSilent e → IsSilent f;
  same = λ e h. h;
  join = λ e f g h k s. k (h s);
  asks = λ e k h. record { no_phase = h.no_phase; early = h.early };
  saves = λ e k b h. record { no_phase = h.no_phase; early = h.early };
  answers = λ e rs h. record { no_phase = h.no_phase; early = h.early };
}

-- An operation of the state that puts no phase on file.
abbrev pub AddsNoPhase : EngineState → EngineState → Type 0
AddsNoPhase s t = s.phases ≡ [] → t.phases ≡ []

pub advance_phase-AddsNoPhase : (s : EngineState) → AddsNoPhase s (advance_phase s).1
unfolding advance_phase
advance_phase-AddsNoPhase s h = h

update_phase-AddsNoPhase :
    (p : PhaseId) (f : PhaseData → PhaseData) (s : EngineState) → AddsNoPhase s (update_phase p f s)
unfolding update_phase
update_phase-AddsNoPhase p f s h = ground arith

module _ {S : Type 0} where
  pub modify-Steps :
      (f : EngineState → EngineState)
      → ((s : EngineState) → AddsNoPhase s (f s))
      → Steps (modify {S = S} f)
  unfolding modify
  modify-Steps f g = record {
    apply = λ e h. record { no_phase = g e.engine_state h.no_phase; early = h.early };
  }

  pub on_state-Steps :
      {A : Type 0} (f : EngineState → A × EngineState)
      → ((s : EngineState) → AddsNoPhase s (f s).1)
      → Steps (on_state {S = S} f)
  unfolding on_state
  on_state-Steps f g = record {
    apply = λ e h. record { no_phase = g e.engine_state h.no_phase; early = h.early };
  }

  pub transmit-Steps : (env : Env) (p : Packet) → IsEarly p → Steps (transmit {S = S} env p)
  unfolding transmit
  transmit-Steps env p q = record {
    apply = λ e h. record { no_phase = h.no_phase; early = (q, h.early) };
  }

  -- A message of the first round, made and sent to one node.
  pub send-Steps :
      (env : Env) (make : ℕ → ℕ → NodeId → ProtocolMessage) (to : NodeId)
      → ((id now : ℕ) (me : NodeId) → is_early (make id now me).message_type ≡ true)
      → Steps (stamp {S = S} env make >>= λ m. transmit env (send_to to m))
  send-Steps env make to h =
      bind_stamp-Steps env make _ λ id now me. transmit-Steps env _ (h id now me)

  pub broadcast-Steps :
      (env : Env) (make : ℕ → ℕ → NodeId → ProtocolMessage)
      → ((id now : ℕ) (me : NodeId) → is_early (make id now me).message_type ≡ true)
      → Steps (stamp {S = S} env make >>= λ m. my_id >>= λ me. transmit env (broadcast m (some me)))
  broadcast-Steps env make h =
      bind_stamp-Steps env make _
        λ id now me. bind-Steps _ _ my_id-Steps λ to. transmit-Steps env _ (h id now me)

  pub update-Steps :
      (p : PhaseId) (f : PhaseData → PhaseData) → Steps (modify {S = S} (update_phase p f))
  update-Steps p f = modify-Steps _ (update_phase-AddsNoPhase p f)
