-- ===== src/Engine/Catchup.antt =====
-- `handle_sync_request` and `handle_sync_response` of rabia-engine/src/engine.rs: what a node that
-- asks is sent, and which answer it adopts.
use rabia.Base.{
  ap, Option, suc, ◌≡◌, refl, ◌∙◌, Bool, true, false, List, [], ◌∷◌, none, some, arith, ltb, leb,
  max, if◌then◌else◌, length,
}
use rabia.Base.Assoc.{Assoc, values, insert}
use rabia.Core.Types.{NodeId, PhaseId}
use rabia.Core.Error.{Result, ok, err}
use rabia.Core.Message.{Snapshot, SyncRequestMessage, SyncResponseMessage, sync_response_message}
use rabia.Engine.State.{clear_sync_responses, add_sync_response}
use rabia.Engine.Runtime.{StateMachine, Env, send_to, RabiaEngine, pure, modify, ◌>>=◌, ◌>>◌}
use rabia.Engine.Sync.{
  install, adopt, adopt_phase, restore, later_response, latest, adopt_latest, resolve_sync,
  take_snapshot, handle_sync_request, handle_sync_response,
}
use rabia.Engine.Growth.Syncs.{adopt_state}

-- The highest phase among the answers.
abbrev pub highest : List SyncResponseMessage → PhaseId
highest [] = 0
highest (r ∷ rs) = max r.responder_phase (highest rs)

latest-highest :
    (best : SyncResponseMessage) (rs : List SyncResponseMessage)
    → (latest best rs).responder_phase ≡ max best.responder_phase (highest rs)
unfolding latest
latest-highest best [] = omega arith
latest-highest best (r ∷ rs) = ground (arith, latest-highest (later_response best r) rs)

module _ {S : Type 0} (sm : StateMachine S) where
  adopt_latest_phase :
      (rs : List SyncResponseMessage) (e : RabiaEngine S)
      → let t = (adopt_latest sm rs e).1.engine_state in
        (t.current_phase ≡ max e.engine_state.current_phase (highest rs))
        × (t.last_committed_phase ≡ e.engine_state.last_committed_phase)
  unfolding ◌>>=◌
  adopt_latest_phase [] e = (omega arith, refl)
  adopt_latest_phase (r ∷ rs) e = (
    ground (arith, adopt_state sm (latest r rs) e, latest-highest r rs),
    ground (arith, adopt_state sm (latest r rs) e),
  )

  resolved :
      (rs : Assoc SyncResponseMessage) (e : RabiaEngine S)
      → let t = (resolve_sync sm rs e).1.engine_state in
        (t.current_phase ≡ max e.engine_state.current_phase (highest (values rs)))
        × (t.last_committed_phase ≡ e.engine_state.last_committed_phase)
  unfolding resolve_sync ◌>>◌ clear_sync_responses
  resolved rs e =
      let h = adopt_latest_phase (values rs) e in (ground (arith, h.0), ground (arith, h.1))

module _ {S : Type 0} (sm : StateMachine S) where
  adopt_latest_responses :
      (rs : List SyncResponseMessage) (e : RabiaEngine S)
      → (adopt_latest sm rs e).1.engine_state.sync_responses ≡ e.engine_state.sync_responses
  unfolding ◌>>=◌
  adopt_latest_responses [] e = refl
  adopt_latest_responses (r ∷ rs) e = ground (arith, adopt_state sm (latest r rs) e)

-- What becomes of the state machine when an answer is adopted: restored if the answer is of a later
-- phase and brings a snapshot.
abbrev pub restored :
    {S : Type 0} → StateMachine S → PhaseId → S → SyncResponseMessage → Result (Unit {0}) × S
restored sm current s r =
    if ltb current r.responder_phase
    then elim r.state_snapshot [
      | none ↦ (ok tt, s)
      | some snapshot ↦ sm.restore_snapshot s snapshot
    ]
    else (ok tt, s)

abbrev pub adopted :
    {S : Type 0} → StateMachine S → PhaseId → S → List SyncResponseMessage → Result (Unit {0}) × S
adopted sm current s [] = (ok tt, s)
adopted sm current s (r ∷ rs) = restored sm current s (latest r rs)

-- The answers that are left when those of a quorum are in.
abbrev pub kept_responses :
    Result (Unit {0}) → Assoc SyncResponseMessage → Assoc SyncResponseMessage
kept_responses (ok u) responses = []
kept_responses (err x) responses = responses

module _ {S : Type 0} (sm : StateMachine S) where
  -- The result, the state machine and the answers, after those of a quorum are in.
  Settles : Assoc SyncResponseMessage → RabiaEngine S → Result (Unit {0}) × RabiaEngine S → Type 0
  Settles rs e x =
      let a = adopted sm e.engine_state.current_phase e.state_machine (values rs) in
      (x.0 ≡ a.0)
      × (x.1.state_machine ≡ a.1)
      × (x.1.engine_state.sync_responses ≡ kept_responses a.0 rs)

  restore-restored :
      (o : Option Snapshot) (e : RabiaEngine S)
      → let a : Result (Unit {0}) × S = elim o [
        | none ↦ (ok tt, e.state_machine)
        | some snapshot ↦ sm.restore_snapshot e.state_machine snapshot
      ] in
        ((restore sm o e).0 ≡ a.0) × ((restore sm o e).1.state_machine ≡ a.1)
  unfolding restore
  restore-restored none e = (refl, refl)
  restore-restored (some snapshot) e = (refl, refl)

  installed_when :
      (b : Bool) (r : SyncResponseMessage) (e : RabiaEngine S)
      → let x = (if b then install sm r else pure tt) e in
        let a : Result (Unit {0}) × S =
          if b
          then elim r.state_snapshot [
            | none ↦ (ok tt, e.state_machine)
            | some snapshot ↦ sm.restore_snapshot e.state_machine snapshot
          ]
          else (ok tt, e.state_machine) in
        (x.0 ≡ a.0) × (x.1.state_machine ≡ a.1)
  unfolding ◌>>◌ pure
  installed_when true r e =
      restore-restored r.state_snapshot
        (record e { engine_state = adopt_phase r.responder_phase e.engine_state })
  installed_when false r e = (refl, refl)

  adopt-restored :
      (r : SyncResponseMessage) (e : RabiaEngine S)
      → let a = restored sm e.engine_state.current_phase e.state_machine r in
        ((adopt sm r e).0 ≡ a.0) × ((adopt sm r e).1.state_machine ≡ a.1)
  unfolding adopt ◌>>=◌
  adopt-restored r e = installed_when (ltb e.engine_state.current_phase r.responder_phase) r e

  adopt_latest-adopted :
      (rs : List SyncResponseMessage) (e : RabiaEngine S)
      → let a = adopted sm e.engine_state.current_phase e.state_machine rs in
        ((adopt_latest sm rs e).0 ≡ a.0) × ((adopt_latest sm rs e).1.state_machine ≡ a.1)
  unfolding pure
  adopt_latest-adopted [] e = (refl, refl)
  adopt_latest-adopted (r ∷ rs) e = adopt-restored (latest r rs) e

  cleared_after :
      (rs : Assoc SyncResponseMessage) (x : Result (Unit {0}) × RabiaEngine S) (e : RabiaEngine S)
      → x.1.engine_state.sync_responses ≡ rs
      → let r = ((λ (_ : RabiaEngine S). x) >> modify clear_sync_responses) e in
        (r.0 ≡ x.0)
        × (r.1.state_machine ≡ x.1.state_machine)
        × (r.1.engine_state.sync_responses ≡ kept_responses x.0 rs)
  unfolding ◌>>◌ clear_sync_responses modify
  cleared_after rs (ok tt, f) e h = (refl, refl, refl)
  cleared_after rs (err x, f) e h = (refl, refl, h)

  resolve_sync-Settles :
      (rs : Assoc SyncResponseMessage) (e : RabiaEngine S)
      → e.engine_state.sync_responses ≡ rs
      → Settles rs e (resolve_sync sm rs e)
  unfolding resolve_sync ◌>>◌ Settles
  resolve_sync-Settles rs e h =
      let a = adopt_latest-adopted (values rs) e in
      let c =
        cleared_after rs (adopt_latest sm (values rs) e) e
          (adopt_latest_responses sm (values rs) e ∙ h) in
      (c.0 ∙ a.0, c.1 ∙ a.1, c.2 ∙ ap (λ r. kept_responses r rs) a.0)

  settled_when :
      (b : Bool) (rs : Assoc SyncResponseMessage) (e : RabiaEngine S)
      → e.engine_state.sync_responses ≡ rs
      → let x = (if b then resolve_sync sm rs else pure tt) e in
        let a = adopted sm e.engine_state.current_phase e.state_machine (values rs) in
        (x.0 ≡ (if b then a.0 else ok tt))
        × (x.1.state_machine ≡ (if b then a.1 else e.state_machine))
        × (x.1.engine_state.sync_responses ≡ (if b then kept_responses a.0 rs else rs))
  unfolding pure Settles
  settled_when true rs e h = resolve_sync-Settles rs e h
  settled_when false rs e h = (refl, refl, h)

-- An answer is put with those that are in, in the place of an earlier one of the same node. While
-- there are fewer than a quorum, all are kept, and phase and state machine stay. With answers of a
-- quorum of nodes the engine moves to the highest phase among them, unless its own is higher; the
-- state machine is restored from the snapshot of the latest answer, if that is of a later phase and
-- brings one; and the answers are dropped, unless the state machine could not be restored, which is
-- the error of the call. The counter of commits stays in any case.
pub handle_sync_response_phase :
    {S : Type 0} (sm : StateMachine S) (from : NodeId) (r : SyncResponseMessage) (e : RabiaEngine S)
    → let s = e.engine_state in
      let x = handle_sync_response sm from r e in
      let t = x.1.engine_state in
      let responses = insert from r s.sync_responses in
      let enough = leb s.quorum_size (length responses) in
      let adoption = adopted sm s.current_phase e.state_machine (values responses) in
      (t.current_phase
        ≡ (if enough then max s.current_phase (highest (values responses)) else s.current_phase))
      × (t.last_committed_phase ≡ s.last_committed_phase)
      × (x.0 ≡ (if enough then adoption.0 else ok tt))
      × (x.1.state_machine ≡ (if enough then adoption.1 else e.state_machine))
      × (t.sync_responses ≡ (if enough then kept_responses adoption.0 responses else responses))
unfolding handle_sync_response ◌>>◌ add_sync_response
handle_sync_response_phase sm from r e =
    let responses = insert from r e.engine_state.sync_responses in
    let e' = record e { engine_state = add_sync_response from r e.engine_state } in
    let h = resolved sm responses e' in
    let settled =
      settled_when sm (leb e.engine_state.quorum_size (length responses)) responses e' refl in
    (ground (arith, h.0), ground (arith, h.1), settled.0, settled.1, settled.2)

-- A node that asks is sent one answer, with the phase and the version of the engine, and with a
-- snapshot of the state machine exactly when it is behind. The state machine must be able to make
-- one.
pub handle_sync_request_sent :
    {S : Type 0} (sm : StateMachine S) (env : Env) (from : NodeId) (request : SyncRequestMessage)
    (snapshot : Snapshot) (e : RabiaEngine S)
    → sm.create_snapshot e.state_machine ≡ ok snapshot
    → let s = e.engine_state in
      let behind = ltb request.requester_phase s.current_phase in
      (handle_sync_request sm env from request e).1.sent
      ≡ send_to from (
          sync_response_message
            (env.uuid e.asked)
            (env.now_millis (suc e.asked))
            e.node_id
            from
            (record {
              responder_phase = s.current_phase;
              responder_state_version = s.state_version;
              state_snapshot = if behind then some snapshot else none;
              pending_batches = [];
              committed_phases = [];
            }))
        ∷ e.sent
unfolding handle_sync_request take_snapshot ◌>>=◌
handle_sync_request_sent sm env from request snapshot e h = ground arith
