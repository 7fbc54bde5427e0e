-- ===== src/Engine/Requests.antt =====
-- `process_batch_request`, `handle_message` and the main loop of rabia-engine/src/engine.rs: what
-- clients are told, which messages are refused, when the loop ends.
use rabia.Base.{
  suc, ◌+◌, ◌≤◌, ◌≡◌, refl, Bool, true, false, List, [], ◌∷◌, ◌++◌, ap, if◌then◌else◌, some, arith,
  ◌==◌, wrapping_inc, length,
}
use rabia.Core.Types.{NodeId, BatchId, v1, CommandBatch}
use rabia.Core.Error.{ok, is_ok, quorum_not_available}
use rabia.Core.Message.{ProtocolMessage, propose_message}
use rabia.Core.Validation.Messages.{IsBody, validate_iff}
use rabia.Base.Assoc.{lookup-insert}
use rabia.Core.Phase.{new_pending}
use rabia.Engine.State.{
  get_pending_batch, increment_version, advance_phase, add_pending_batch, update_phase,
}
use rabia.Engine.Runtime.{StateMachine, Env, broadcast, failed, RabiaEngine, ◌>>=◌, ◌>>◌}
use rabia.Engine.Voting.{propose_batch, propose_in, process_batch_request}
use rabia.Engine.Loop.{
  batches_in, check_message, handle_message, handle_command, Event, received, command,
  channel_closed, cleanup_tick, heartbeat_tick, idle, shutdown, ends_loop, turn, run_loop,
}

-- Where there is a quorum, a client's batch is put with the pending ones, stamped with the clock
-- and no other pending batch changed, and proposed, with the value to commit it, in the phase after
-- the current one, by one broadcast. The client is told nothing.
pub process_batch_request_proposes :
    {S : Type 0} (env : Env) (b : CommandBatch) (e : RabiaEngine S)
    → e.engine_state.has_quorum ≡ true
    → let f = (process_batch_request env b e).1 in
      let s = e.engine_state in
      (f.sent
        ≡ broadcast
            (propose_message
              (env.uuid (suc e.asked))
              (env.now_millis (suc (suc e.asked)))
              e.node_id
              (record {
                phase_id = wrapping_inc s.current_phase;
                batch_id = b.id;
                value = v1;
                batch = some b;
              }))
            (some e.node_id)
          ∷ e.sent)
      × (f.engine_state.current_phase ≡ wrapping_inc s.current_phase)
      × (f.replies ≡ e.replies)
      × ((k : BatchId)
          → get_pending_batch k f.engine_state ≡ (
              if k == b.id
              then some (record {
                batch = b;
                originator = e.node_id;
                received_timestamp = env.now_millis e.asked;
                retry_count = 0;
              })
              else get_pending_batch k s))
unfolding process_batch_request propose_batch propose_in advance_phase add_pending_batch
    update_phase ◌>>◌ increment_version
process_batch_request_proposes env b e h = (
  ground arith,
  ground arith,
  ground arith,
  λ k. ground (
    arith,
    lookup-insert b.id k (new_pending (env.now_millis e.asked) b e.node_id)
        e.engine_state.pending_batches,
  ),
)

-- Without a quorum a client's batch changes nothing, and the client is told how many nodes are
-- active and how many it takes.
pub process_batch_request_refused :
    {S : Type 0} (env : Env) (b : CommandBatch) (e : RabiaEngine S)
    → e.engine_state.has_quorum ≡ false
    → let error =
        quorum_not_available (length e.engine_state.active_nodes) e.engine_state.quorum_size in
      process_batch_request env b e ≡ (ok tt, record e { replies = failed error ∷ e.replies })
unfolding process_batch_request ◌>>=◌
process_batch_request_refused env b e h = rw h refl

-- A message that is handled without an error came from the node that it names, was stamped at most
-- a minute ahead of the clock and ten minutes behind it, and was well formed for its kind.
pub handle_message_ok :
    {S : Type 0} (sm : StateMachine S) (env : Env) (from : NodeId) (m : ProtocolMessage)
    (e : RabiaEngine S)
    → is_ok (handle_message sm env from m e).0 ≡ true
    → (m.from ≡ from)
      × (m.timestamp ≤ env.now_millis e.asked + 60000)
      × (env.now_millis e.asked ≤ m.timestamp + 600000)
      × IsBody (λ i. env.now_millis (suc e.asked + i)) m.message_type
unfolding handle_message check_message ◌>>◌
handle_message_ok sm env from m e h =
    let valid = validate_iff (env.now_millis e.asked) (λ i. env.now_millis (suc e.asked + i)) m in
    let passed = valid.0 (ground arith) in (ground arith, passed.0, passed.1, passed.2)

-- A message that claims another sender changes nothing and is answered by nothing; only the clock
-- was read.
pub handle_message_mismatch :
    {S : Type 0} (sm : StateMachine S) (env : Env) (from : NodeId) (m : ProtocolMessage)
    (e : RabiaEngine S)
    → (m.from == from) ≡ false
    → (is_ok (handle_message sm env from m e).0 ≡ false)
      × ((handle_message sm env from m e).1
          ≡ record e { asked = suc e.asked + batches_in m.message_type })
unfolding handle_message check_message ◌>>◌
handle_message_mismatch sm env from m e h = ground arith

-- Some event says that all senders of commands are gone.
abbrev pub any_closed : List Event → Bool
any_closed [] = false
any_closed (channel_closed ∷ xs) = true
any_closed (received from m ∷ xs) = any_closed xs
any_closed (command c ∷ xs) = any_closed xs
any_closed (cleanup_tick ∷ xs) = any_closed xs
any_closed (heartbeat_tick ∷ xs) = any_closed xs
any_closed (idle ∷ xs) = any_closed xs

module _ {S : Type 0} (sm : StateMachine S) (env : Env) where
  run_loop_closed : (xs : List Event) (e : RabiaEngine S) → (run_loop sm env xs e).0 ≡ any_closed xs
  unfolding run_loop
  run_loop_closed [] e = refl
  run_loop_closed (channel_closed ∷ xs) e = refl
  run_loop_closed (received from m ∷ xs) e = run_loop_closed xs _
  run_loop_closed (command c ∷ xs) e = run_loop_closed xs _
  run_loop_closed (cleanup_tick ∷ xs) e = run_loop_closed xs _
  run_loop_closed (heartbeat_tick ∷ xs) e = run_loop_closed xs _
  run_loop_closed (idle ∷ xs) e = run_loop_closed xs _

  -- What follows the same events is run on the same engine.
  run_loop-append :
      (xs ys zs : List Event) (e : RabiaEngine S)
      → ((f : RabiaEngine S) → run_loop sm env ys f ≡ run_loop sm env zs f)
      → run_loop sm env (xs ++ ys) e ≡ run_loop sm env (xs ++ zs) e
  unfolding run_loop
  run_loop-append [] ys zs e h = h e
  run_loop-append (x ∷ xs) ys zs e h =
      ap (λ rest. if ends_loop x then (true, e) else rest)
        (run_loop-append xs ys zs (turn sm env x e) h)

  run_loop_stops :
      (xs ys : List Event) (e : RabiaEngine S)
      → run_loop sm env (xs ++ channel_closed ∷ ys) e ≡ (true, (run_loop sm env xs e).1)
  unfolding run_loop
  run_loop_stops [] ys e = refl
  run_loop_stops (x ∷ xs) ys e =
      pick (ends_loop x) e (run_loop sm env (xs ++ channel_closed ∷ ys) (turn sm env x e))
        (run_loop sm env xs (turn sm env x e)) (run_loop_stops xs ys (turn sm env x e))
    where
      pick :
          (b : Bool) (e : RabiaEngine S) (r s : Bool × RabiaEngine S)
          → r ≡ (true, s.1)
          → (if b then (true, e) else r) ≡ (true, (if b then (true, e) else s).1)
      pick true e r s h = refl
      pick false e r s h = h

  -- The main loop ends exactly when all senders of commands are gone, whatever messages, commands and
  -- ticks it handles; what comes after that is not handled. A command to shut down is passed over
  -- wherever it comes, as if it had not come.
  pub run_loop_ends :
      (xs ys : List Event) (e : RabiaEngine S)
      → ((run_loop sm env xs e).0 ≡ any_closed xs)
        × (run_loop sm env (xs ++ channel_closed ∷ ys) e ≡ (true, (run_loop sm env xs e).1))
        × (run_loop sm env (xs ++ command shutdown ∷ ys) e ≡ run_loop sm env (xs ++ ys) e)
  unfolding run_loop turn handle_command ◌>>=◌
  run_loop_ends xs ys e = (
    run_loop_closed xs e,
    run_loop_stops xs ys e,
    run_loop-append xs (command shutdown ∷ ys) ys e (λ f. refl),
  )
