-- ===== src/Lib.antt =====
-- A verification library for zeptopm, a process manager for AI agents.
--
-- The program has a daemon (src/daemon.rs) that owns an orchestrator: a store of runs, jobs,
-- artifacts and channels (src/orchestrator/store.rs), a scheduler over it
-- (src/orchestrator/scheduler.rs), a planner that turns the plan of a planner job into jobs and
-- channels (src/orchestrator/planner.rs), and the engine that queues, starts, completes and retries
-- jobs and routes the messages of channels (src/orchestrator/engine.rs).
--
-- Which file models what:
--   Types       src/orchestrator/types.rs: the records and enums, field by field.
--   Store       src/orchestrator/store.rs: `RunStore`. `get_x_mut` followed by assignments is
--               `modify_x` with the new record as a function of the old one. Store/Laws has the
--               well-formedness that every operation keeps, Store/Removal `remove_run`.
--   Scheduler   src/orchestrator/scheduler.rs: `promote_unblocked_jobs`, `check_run_completion`,
--               `gen_id`. Proofs in Promotion, Completion, Frame and Deadlock.
--   Planner     src/orchestrator/planner.rs: `validate_plan`, `materialize_plan`,
--               `resolve_workspace`. Proofs in Validation, Materialize, Renaming, Refinement
--               and Created.
--   Engine      src/orchestrator/engine.rs: the methods on jobs. Engine/Review has
--               `handle_review_completion`; Engine/Channels has `activate_ready_channels`,
--               `route_channel_message`, `handle_channel_done` and `handle_channel_peer_failure`.
--               Engine/Calls makes the methods the steps of one state, Engine/Bounds and
--               Engine/Lifecycle prove what holds after any steps; Engine/Queue is about
--               `next_job`; Engine/Channels/Routing, Delivery, Activation, Conversation and Outcome are
--               about channels, Engine/Incidents about calls that the engine does not guard against.
--   Database    what the code takes from SQLite and JSON, as interfaces with their laws.
--   Persistence src/orchestrator/sqlite_store.rs: the rows and their texts. Persistence/Tables has
--               the operations, Persistence/Recovery proves what is read back.
--   Config      src/config.rs: the configuration, `validate_config` and `resolve_api_key`. Proofs
--               in Validation. Config/Files has `load_config`, the paths of sessions and
--               `config_hash`, and src/provider.rs and the addresses of src/llm.rs.
--   Server      src/server.rs: `RateLimitBucket`, with proofs in Window. Server/Gateway has
--               `gateway_chat`, Server/Traffic what it lets through over time, and
--               Server/Orchestrate `parse_delegations` and `post_orchestrate`, with proofs about the
--               former in Server/Delegation. Server/Handlers has the other handlers, Results the
--               answer about a run's result, from the daemon to the client.
--   Json        objects of JSON and how the code reads them.
--   Agent       src/agent.rs: states, commands and updates. Agent/Bridge has `worker_bridge`, with
--               proofs in Agent/Bridge/Counts and Agent/Bridge/Replies.
--   Review      src/orchestrator/review.rs, and `extract_json` of src/daemon.rs. Proofs in
--               Extraction.
--   Worker      src/worker.rs: `truncate_history`; src/agent.rs: `push_log`. Proofs in Bounds.
--               Worker/Process has the loop of the worker's process, Worker/Startup its start;
--               proofs in Worker/Process/Requests and Worker/Startup/Answers.
--   Capsule     src/capsule.rs: what a capsule is made with, and messages. Capsule/Paths has the
--               paths that are translated, Capsule/Drive a job in a capsule from its creation to
--               its end, with proofs in Events, Leaving, Loop and Ends.
--   Daemon      src/daemon.rs: `cancel_run`, with proofs in Cancellation; Daemon/Hydration
--               has the hydration at the start of `run`, with proofs in Daemon/Hydration/Restart.
--               Daemon/World has what the loop of `run` owns, its effects and what it asks of the
--               system. Daemon/Supervision has the agents: updates, commands, restarts and
--               `apply_config_changes`, with proofs in Entries, Limits, Restarts and
--               Reload. Daemon/Workers has
--               the workers of jobs, with proofs in Spawning; Daemon/Closing the completion of closed
--               channels; Daemon/Handlers and Daemon/Handlers/Poll each handler of the loop that
--               changes the engine, with proofs in Completion, Bounds and Turns; Daemon/Queries the
--               answers about runs, with proofs in Results; and Daemon/Shutdown what follows the
--               loop, with proofs in Flight and Quiet.
--   Cli         src/main.rs: `print_run_status`, `tail_run`, the errors and `format_uptime`;
--               src/status.rs.
--   Base        lists, association lists, texts and tests that the parts share.
--   Samples     concrete values; the Tests modules apply the theorems to them.
--
-- How the code is read. A method that mutates `self` returns the new state. A `HashMap` is an
-- association list with distinct keys whose order stands for the order of iteration; the theorems
-- hold for each order. The clocks are arguments, read once in a call; the counter of `gen_id` is
-- threaded through the calls that make ids. `u32` sums keep their wrap-around, `usize` lengths and
-- indices do not wrap. The home directory, which the crate `dirs` finds, is an argument. Fuel
-- is taken by `show_nat`, which prints at most 40 digits, more than a `u128` has; by `spawn_ready`,
-- one round for each id in the queue and one more; and by `rounds_from`, eleven rounds, one more than
-- the code's maximum.
--
-- In the daemon, what is sent, spawned, written or deleted is a list of effects; persistence is an
-- effect whether or not a database is open, and no effect fails. The hourly gate before the removal
-- of old runs is left out: the removal may come at any tick. A text that the code slices backwards
-- makes it panic, which is `none`. An HTTP handler is run as a whole; but between the calls of
-- `post_orchestrate`, and while `post_stop` sends its signal, anything may happen.
--
-- What comes from outside is an argument. A capsule, the worker's pipe and the daemon's commands are
-- a list of inputs and the outcome of each call; the agent of the crate `zeptoclaw` is what it answers
-- to a message and its history then; a reply of the daemon may fail to come. A heartbeat that is sent
-- beside a call of the agent stands before the agent's answer.
--
-- Not modelled: of the command line the arguments, the manifest and the other printing; the requests
-- of the LLM client; the routes; the TOML parser, the hasher and the crates behind a capsule and an
-- agent. Logging is left out. JSON and SQLite are foreign: Database states what is assumed of them.
mod Base
pub mod Types
pub mod Store
pub mod Scheduler
pub mod Planner
pub mod Engine
pub mod Config
pub mod Database
pub mod Persistence
pub mod Server
pub mod Worker
pub mod Review
pub mod Json
pub mod Agent
pub mod Daemon
mod Samples
pub mod Capsule
pub mod Cli
