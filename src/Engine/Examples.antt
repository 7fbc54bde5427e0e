-- ===== src/Engine/Examples.antt =====
-- The theorems on the engine's handlers and its main loop at concrete inputs.
use rabia.Base.{
  ℕ, ◌≡◌, refl, true, false, ◌+◌, ◌≤◌, [], ◌∷◌, ◌++◌, ◌==◌, if◌then◌else◌, none, some, arith,
}
use rabia.Core.Types.{BatchId, v1}
use rabia.Core.Error.{ok, is_ok}
use rabia.Core.Message.{
  ProtocolMessage, ProposeMessage, SyncResponseMessage, heart_beat, propose_message,
}
use rabia.Core.Validation.Messages.{IsBody}
use rabia.Core.Validation.{validate, validate_body, validate_heartbeat, validate_phase_id}
use rabia.Engine.State.{
  init, commit_phase, commit_loop, remove_pending_batch, update_phase, get_pending_batch,
  clear_sync_responses, add_sync_response,
}
use rabia.Engine.Runtime.{
  RabiaEngine, new_engine, default_config, apply_commands, ◌>>◌, ◌>>=◌, broadcast,
}
use rabia.Engine.Decide.{
  handle_decision, commit_batch, apply_batch, run_commands, commit, save_state, make_persisted,
}
use rabia.Engine.Voting.{process_batch_request}
use rabia.Engine.Sync.{handle_sync_response, resolve_sync, adopt, latest, restore}
use rabia.Engine.Loop.{
  handle_message, check_message, dispatch, received, command, process_batch, force_phase_advance,
  shutdown, channel_closed, heartbeat_tick, turn, run_loop, run,
}
use rabia.Engine.Growth.{Grows}
use rabia.Engine.Growth.Turns.{turn-Grows}
use rabia.Engine.Silence.{IsSilent}
use rabia.Engine.Silence.Turns.{run-IsSilent}
use rabia.Engine.Applied.{to_commit, handle_decision_twice, early_decision_applied_twice}
use rabia.Core.Phase.{new_pending}
use rabia.Engine.Catchup.{handle_sync_response_phase}
use rabia.Engine.Requests.{process_batch_request_proposes, handle_message_ok, run_loop_ends}
use rabia.Engine.Samples.{counter, calm, cluster, engine, two_commands, fifth, fifth_engine}

turn-Grows_example :
    Grows (init 2) (turn counter calm (command force_phase_advance) engine).engine_state
turn-Grows_example = turn-Grows counter calm (command force_phase_advance) engine (omega arith)

abbrev beat : ProtocolMessage
beat = record {
  id = 8;
  from = 2;
  to = none;
  timestamp = 1500;
  message_type = heart_beat (record { current_phase = 4; last_committed_phase = 3; active = true });
}

-- A client's batch, a heartbeat, and the end of the clients.
run-IsSilent_example :
    IsSilent
      (run counter calm
        (command (process_batch two_commands) ∷ received 2 beat ∷ channel_closed ∷ [])
        (new_engine 1 default_config cluster 0)).1
run-IsSilent_example =
    run-IsSilent counter calm 1 default_config cluster 0
      (command (process_batch two_commands) ∷ received 2 beat ∷ channel_closed ∷ [])

abbrev proposal : ProposeMessage
proposal = record { phase_id = 1; batch_id = 5; value = v1; batch = some two_commands }

handle_decision_twice_example :
    let d = to_commit 4 5 two_commands in
    let e = (handle_decision counter calm 2 d fifth_engine).1 in
    (handle_decision counter calm 3 d e).1.state_machine ≡ e.state_machine
unfolding handle_decision commit_batch apply_batch run_commands apply_commands commit commit_phase
    commit_loop save_state make_persisted update_phase remove_pending_batch ◌>>◌
handle_decision_twice_example =
    let d = to_commit 4 5 two_commands in
    let e = (handle_decision counter calm 2 d fifth_engine).1 in
    handle_decision_twice counter calm 2 3 d fifth_engine e refl (omega arith)

early_decision_applied_twice_example :
    let first = handle_decision counter calm 2 (to_commit 9 5 two_commands) fifth_engine in
    let second = handle_decision counter calm 2 (to_commit 9 5 two_commands) first.1 in
    (is_ok first.0 ≡ false)
    × (first.1.engine_state.last_committed_phase ≡ 3)
    × (first.1.state_machine ≡ (apply_commands counter two_commands.commands 0).1)
    × (second.1.state_machine
        ≡ (apply_commands counter two_commands.commands first.1.state_machine).1)
early_decision_applied_twice_example =
    early_decision_applied_twice counter calm 2 9 5 two_commands fifth_engine (omega arith)
      (omega arith)

abbrev answer_of_three : SyncResponseMessage
answer_of_three = record {
  responder_phase = 8;
  responder_state_version = 12;
  state_snapshot = some (record { version = 6; payload = []; checksum = 0 });
  pending_batches = [];
  committed_phases = [];
}

-- With one answer of the two that it takes, the second one.
abbrev behind : RabiaEngine ℕ
behind = record fifth_engine {
  engine_state = record fifth {
    sync_responses = (2, record answer_of_three { responder_phase = 7 }) ∷ [];
  };
}

handle_sync_response_phase_example :
    let x = handle_sync_response counter 3 answer_of_three behind in
    let t = x.1.engine_state in
    (t.current_phase ≡ 8)
    × (t.last_committed_phase ≡ 3)
    × (x.0 ≡ ok tt)
    × (x.1.state_machine ≡ 6)
    × (t.sync_responses ≡ [])
unfolding handle_sync_response resolve_sync clear_sync_responses add_sync_response ◌>>◌ ◌>>=◌ adopt
    latest restore
handle_sync_response_phase_example = handle_sync_response_phase counter 3 answer_of_three behind

process_batch_request_proposes_example :
    let f = (process_batch_request calm two_commands fifth_engine).1 in
    (f.sent
      ≡ broadcast
          (propose_message 501 1002 1
            (record { phase_id = 6; batch_id = 5; value = v1; batch = some two_commands }))
          (some 1)
        ∷ [])
    × (f.engine_state.current_phase ≡ 6)
    × (f.replies ≡ [])
    × ((k : BatchId)
        → get_pending_batch k f.engine_state
          ≡ (if k == 5 then some (new_pending 1000 two_commands 1) else none))
process_batch_request_proposes_example =
    process_batch_request_proposes calm two_commands fifth_engine refl

run_loop_ends_example :
    let xs = received 2 beat ∷ command force_phase_advance ∷ [] in
    let ys = heartbeat_tick ∷ channel_closed ∷ [] in
    ((run_loop counter calm xs engine).0 ≡ false)
    × (run_loop counter calm (xs ++ channel_closed ∷ ys) engine
        ≡ (true, (run_loop counter calm xs engine).1))
    × (run_loop counter calm (xs ++ command shutdown ∷ ys) engine
        ≡ run_loop counter calm (xs ++ ys) engine)
run_loop_ends_example =
    run_loop_ends counter calm (received 2 beat ∷ command force_phase_advance ∷ [])
      (heartbeat_tick ∷ channel_closed ∷ []) engine

handle_message_ok_example :
    (beat.from ≡ 2)
    × (1500 ≤ 1000 + 60000)
    × (1000 ≤ 1500 + 600000)
    × IsBody (λ i. 1000 + (1 + i)) beat.message_type
unfolding handle_message check_message validate validate_body validate_heartbeat validate_phase_id
    dispatch ◌>>◌
handle_message_ok_example = handle_message_ok counter calm 2 beat engine refl
