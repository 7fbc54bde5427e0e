-- ===== src/Lib.antt =====
-- Rabia: state machine replication by randomized consensus. Nodes of a cluster propose batches of
-- commands, vote on each in two rounds, and apply what is decided to a state machine.
--
-- Parts, and the files that model them:
-- - rabia-core/src/types.rs, error.rs: Core/Types, Core/Ids (identifiers made of numbers), Core/Error.
--   A UUID is a number; a new one, and a reading of the clock, is an argument of what asks for it.
-- - rabia-core/src/messages.rs: Core/Message (the messages), Core/Phase (`PhaseData`, the votes of a
--   phase and their count, and `PendingBatch`). Core/Phase/Count compares the count of votes with a
--   plain count; Core/Phase/Quorum is about nodes that count votes independently.
-- - rabia-core/src/network.rs: Core/Network (`ClusterConfig`, `NetworkMonitor`); Core/Network/Majority
--   and Core/Network/Monitor hold the proofs.
-- - rabia-core/src/validation.rs: Core/Validation, with its proofs in Accepts and Messages below it.
-- - rabia-engine/src/state.rs: Engine/State, the state and all its operations; Invariant, Commit and
--   Cleanup below it hold the proofs.
-- - rabia-engine/src/leader.rs: Engine/Leader, with Order and Election below it.
-- - rabia-engine/src/engine.rs: Engine/Runtime (the engine, its surroundings, and the monad of its
--   handlers), Engine/Decide (`make_decision`, `apply_batch`, `handle_decision`, `save_state`),
--   Engine/Voting (`process_batch_request`, `propose_batch`, `handle_propose`,
--   `determine_round1_vote`, `handle_vote_round1`, `proceed_to_round2`, `handle_vote_round2`),
--   Engine/Sync (`handle_sync_request`, `handle_sync_response`, `resolve_sync`, `initiate_sync`,
--   heartbeats, clean-up), Engine/Loop (`handle_message`, `handle_command`, `initialize`, `run` and
--   the callbacks of the network).
-- - About the engine: Engine/Change and Engine/Growth (what a turn of the loop may change),
--   Engine/Silence (an engine without phases), Engine/Ballots (what is voted), Engine/Applied (when
--   and how often a decision is applied), Engine/Catchup, Engine/Requests.
-- - rabia-core/src/batching.rs: Core/Batching (`CommandBatcher` and the task of
--   `AsyncCommandBatcher`), with Order, Size and Relay below it; Core/Processor (`BatchProcessor`).
-- - rabia-core/src/memory_pool.rs: Core/Pool, and Core/Pool/System, the pool with its users, in steps
--   of any order; Capacity and Handed below it hold the proofs. Core/Strings is its pool of strings.
-- - rabia-core/src/serialization.rs: Core/Serialization, on the pool; Pooled holds the proof.
-- - rabia-core/src/state_machine.rs: the trait `StateMachine` in Engine/Runtime, its implementation
--   `InMemoryStateMachine` in Local/Machine, with Commands and Restore; Local/Words is
--   `split_whitespace`.
-- - rabia-persistence/src: Local/Persistence (in_memory.rs, file_system.rs), with Atomic.
-- - rabia-kvstore/src: Kvstore/Operations (operations.rs), Kvstore/Notifications (notifications.rs),
--   Kvstore/Store (store.rs), with Invariant, Refinement, Snapshot and Errors below the store. The
--   store publishes its changes on the bus of Notifications.
-- - rabia-core/src/smr.rs: Smr, the trait `StateMachine` for replicated machines. Machines that
--   implement it: examples/banking_smr/src/lib.rs in Smr/Banking, with Total, Conservation and
--   Overflow, and examples/counter_smr/src/lib.rs in Smr/Counter, with Exact. Smr/I64 is `i64`.
-- - rabia-testing/src/network_sim.rs: Testing/Simulator, the network that tests run on, with Accounts,
--   and Testing/Simulated, a node's end of it. network/in_memory.rs: Testing/InMemory, with Routes.
--   fault_injection.rs: Testing/Faults, with Verdicts.
-- - rabia-engine/src/config.rs: Engine/Runtime (`RabiaConfig`), Engine/Config (its builder methods, and
--   the TCP settings).
-- - rabia-engine/src/network/tcp.rs: Tcp/Frame (`MessageFrame`), Tcp/Stream (the reader and the writer
--   of `run_connection_handler`), Tcp/Handshake, Tcp/Connect (the attempts of `connect_to_peer`) and
--   Tcp/Peers (`TcpNetwork`). Their proofs are Reading; Ends and Relay; Agreement; Attempts; Table,
--   Accept, Delivery, Lost, Reach and Health.
-- - examples/kvstore_smr/src/smr_impl.rs: Smr/Kv, on the store of Kvstore, with Alike,
--   Steps and Replicas.
-- - Base: dictionaries over any type of keys with an equality test, text as bytes, tests on numbers,
--   lists, sets of nodes and association lists. Examples stand in the modules named so, their data in
--   Engine/Samples.
--
-- How the code is rendered:
-- - A handler is a function from the engine to a result and the engine after it, so what was changed
--   before an error stays changed. An operator `?` is the bind of this monad.
-- - The network, the disk, the clock, the random generator, the source of UUIDs and the JSON encoding
--   are a record `Env` of answers to numbered questions, about which nothing is assumed; the engine
--   counts its questions and records what it sends, saves and replies.
-- - The application's state machine is a record of operations, about which nothing is assumed.
-- - A `HashMap` or `DashMap` is an association list and a `HashSet` a list, whose order stands for the
--   order of iteration. The sort of leader.rs is stood for by insertion.
-- - The counters of the engine's state are 64 bits wide and wrap around as `fetch_add` does; a theorem
--   that needs room for one more phase says so. Sums of a timestamp and a bound in the validation
--   are not wrapped: they would need a clock near 2^64 milliseconds.
-- - The loop of `commit_phase` runs over the list of the exchanges that fail, each with the value that
--   another thread wrote, so it needs no fuel; other operations are single steps.
-- - The main loop is a fold over the events that `select!` and the network bring, which have no bound,
--   and so is the task of the asynchronous batcher. Its parts are structurally recursive, so nothing
--   runs out of fuel. Logging is left out.
-- - The key-value store, the batcher and the bank are given the clock, the source of UUIDs and the
--   hasher as functions, or a reading as an argument. Calls of the store do not interleave. Its
--   counters are plain numbers, and so are those of the batcher; only those of the engine and of the
--   examples wrap.
-- - A stream of TCP is the bytes that it brings before it ends. The reader's loop is on fuel, one more
--   than there are bytes, which is enough since a frame takes at least four of them. The attempts to
--   connect are counted down, and what becomes of each is an argument.
-- - An `i64` is the number that its 64 bits are; what the code adds without a check wraps around, as
--   in a release build. The batcher compares the quotient of two counters, a floating-point number,
--   with 2 and with 1/2; the model multiplies instead, which agrees for counters below 2^50.
--
-- Not modelled: sockets, the listener and the spawning of tasks in the TCP transport, the encodings
-- of messages (calls of crates), the harness that runs test scenarios for real time, the performance
-- tests, the other examples and the benchmarks.
pub mod Base
pub mod Core
pub mod Engine
pub mod Kvstore
pub mod Local
pub mod Smr
pub mod Tcp
pub mod Testing
