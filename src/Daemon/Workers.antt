-- ===== src/Daemon/Workers.antt =====
-- src/daemon.rs: the workers of jobs: how they are spawned, told of channels and failures, and
-- finished when their channels close.
pub mod Spawning
use zeptopm.Base.{
  ℕ, zero, suc, String, Bool, true, false, not, ◌&&◌, if◌then◌else◌, Option, none, some, List, [],
  ◌∷◌, ◌++◌, map, filter, filter_map, any, first, is_empty, Map, get, insert, remove, contains_key,
  str_eq, is_some_and, unwrap_or, map_option, format, show_nat, flat_map, trim, take_chars,
  path_join, is_blank,
}
use zeptopm.Types.{
  JobId, ArtifactId, ChannelId, Time, JobStatus, Job, Artifact, Channel, ChannelMessage,
  ChannelAction, kill_participants, notify_peers, job_status_eq,
}
use zeptopm.Store.{
  RunStore, get_job, get_artifact, get_channel, create_artifact, channels_for_job,
  all_channels_for_job,
}
use zeptopm.Scheduler.{gen_id}
use zeptopm.Engine.{Engine, Env, next_job, mark_running, mark_completed, mark_failed}
use zeptopm.Engine.Channels.{activate_ready_channels, handle_channel_peer_failure}
use zeptopm.Persistence.{debug_mode}
use zeptopm.Config.{AgentConfig, Config}
use zeptopm.Json.{Json, text, flag}
use zeptopm.Agent.{AgentStatus, user_message, channel_message, job_execute, stop}
use zeptopm.Daemon.{worker_name}
use zeptopm.Daemon.World.{
  InternalAgent, World, Host, Effect, emit, send, spawn, persist_artifact, new_state, find_agent,
}

abbrev sandbox_requested : Config → Option Bool → Bool
sandbox_requested config sandbox_override =
    unwrap_or sandbox_override (not (str_eq config.daemon.isolation "none"))

-- The entry of a job's worker; a sandboxed one takes no direct chat.
abbrev pub job_worker : Time → String → Bool → JobId → InternalAgent
job_worker now handle_name direct job_id = record {
  handle = record { name = handle_name };
  state = new_state job_id AgentStatus.running now;
  max_restarts = 0;
  restart_backoff_ms = 1000;
  restart_at = none;
  gateway = none;
  supports_direct_chat = direct;
}

abbrev no_profile : Job → Json
no_profile job =
    ("type", text "job_failed")
    ∷ ("job_id", text job.job_id)
    ∷ ("error", text (format ("no agent profile '" ∷ job.profile_id ∷ "' found in config" ∷ [])))
    ∷ ("retryable", flag false)
    ∷ []

abbrev listed : List String → List String
listed paths = flat_map (λ path. "\n- " ∷ path ∷ []) paths

unfoldable pub build_channel_job_setup_prompt : Job → List String → String
build_channel_job_setup_prompt job input_artifacts = format (
    "You are executing orchestrated job '"
      ∷ job.job_id
      ∷ "'.\nRole: "
      ∷ job.role
      ∷ "\nInstruction: "
      ∷ job.instruction
      ∷ "\nWorkspace: "
      ∷ job.workspace_dir
      ∷ "\n\nYou may receive routed messages from peer agents through the orchestrator. Wait for the next routed message before doing substantive work."
      ∷ (if is_empty input_artifacts
          then []
          else "\n\nInput artifact paths:" ∷ listed input_artifacts)
    ++ "\n\nReply with a brief ACK only." ∷ [])

abbrev input_paths : RunStore → Job → List String
input_paths s job =
    filter_map (λ aid. map_option (λ (a : Artifact). a.path) (get_artifact aid s))
      job.input_artifact_ids

-- The first command to a worker: to wait for its channels, or to do its job.
abbrev first_effect : RunStore → Job → Effect
first_effect s job =
    if is_empty (all_channels_for_job job.job_id s)
    then send (worker_name job.job_id)
        (job_execute job.job_id job.instruction job.workspace_dir (input_paths s job))
    else send (worker_name job.job_id)
        (user_message (build_channel_job_setup_prompt job (input_paths s job)) none)

abbrev put_worker : Time → String → Bool → Job → World → World
put_worker now handle_name direct job w = record w {
  managed =
      insert (worker_name job.job_id) (job_worker now handle_name direct job.job_id) w.managed;
}

unfoldable pub spawn_job_worker : Host → Time → Job → World → World
spawn_job_worker host now job w =
    if host.has_capsule && sandbox_requested w.config host.sandbox_override
    then put_worker now (worker_name job.job_id) false job (emit (spawn (worker_name job.job_id)) w)
    else elim (find_agent job.profile_id w.config.agents) [
      | none ↦ record w { events = w.events ++ no_profile job ∷ [] }
      | some agent_config ↦
          put_worker now agent_config.name true job
            (emit (first_effect w.engine.store job) (emit (spawn (worker_name job.job_id)) w))
    ]

-- `while let Some(job) = orchestrator.next_job()`, for at most so many rounds.
unfoldable pub spawn_ready : ℕ → Env → Host → World → World
spawn_ready zero env host w = w
spawn_ready (suc rounds) env host w = elim (next_job w.engine).1 [
  | none ↦ record w { engine = (next_job w.engine).0 }
  | some job ↦ spawn_ready rounds env host (
      spawn_job_worker host env.instant job
        (record w { engine = mark_running env job.job_id (next_job w.engine).0 }))
]

-- The initial message of a channel goes to its first participant, if it has a worker.
abbrev initial_effects : Map InternalAgent → ChannelId → Option Channel → List Effect
initial_effects managed ch_id none = []
initial_effects managed ch_id (some ch) =
    if not (is_empty ch.history) then [] else elim ch.initial_message [
      | none ↦ []
      | some initial_msg ↦ elim (first ch.participants) [
        | none ↦ []
        | some job_id ↦
            if contains_key (worker_name job_id) managed
            then send (worker_name job_id) (channel_message ch_id initial_msg) ∷ []
            else []
      ]
    ]

-- `activate_channels!`
unfoldable pub activate_channels : World → World
activate_channels w =
    let (e, activated) = activate_ready_channels w.engine in
    record w {
      engine = e;
      effects =
          w.effects
          ++ flat_map (λ ch_id. initial_effects w.managed ch_id (get_channel ch_id e.store))
              activated;
    }

-- A worker is told to stop, if it is there, and is forgotten.
unfoldable pub stop_worker : JobId → World → World
stop_worker job_id w =
    let name = worker_name job_id in
    let w' = if contains_key name w.managed then emit (send name stop) w else w in
    record w' { managed = remove name w'.managed }

unfoldable pub kill_peers : Env → JobId → List JobId → World → World
kill_peers env failed_id [] w = w
kill_peers env failed_id (kill_id ∷ kill_ids) w =
    let w' = stop_worker kill_id w in
    let error = format ("channel peer '" ∷ failed_id ∷ "' failed (KillAll)" ∷ []) in
    kill_peers env failed_id kill_ids
      (record w' { engine = mark_failed env kill_id error w'.engine })

abbrev notices : Map InternalAgent → String → List JobId → List Effect
notices managed message peer_ids =
    map (λ peer_id. send (worker_name peer_id) (user_message message none))
      (filter (λ peer_id. contains_key (worker_name peer_id) managed) peer_ids)

abbrev act_on_failure : Env → JobId → ChannelAction → World → World
act_on_failure env failed_id (kill_participants job_ids) w = kill_peers env failed_id job_ids w
act_on_failure env failed_id (notify_peers job_ids message) w = record w {
  effects = w.effects ++ notices w.managed message job_ids;
}
act_on_failure env failed_id _ w = w

unfoldable pub fail_channels : Env → JobId → List ChannelId → World → World
unfolding kill_peers
fail_channels env job_id [] w = w
fail_channels env job_id (ch_id ∷ ch_ids) w =
    let (e, action) = handle_channel_peer_failure ch_id job_id w.engine in
    fail_channels env job_id ch_ids (act_on_failure env job_id action (record w { engine = e }))

-- `handle_channel_peer_failures!`
unfoldable pub handle_channel_peer_failures : Env → JobId → World → World
unfolding fail_channels
handle_channel_peer_failures env job_id w =
    fail_channels env job_id
      (map (λ (c : Channel). c.channel_id) (channels_for_job job_id w.engine.store)) w
