-- ===== src/Daemon/Handlers.antt =====
-- src/daemon.rs, the loop of `run`: what is done on each event of a worker and on the commands about
-- runs. A handler that slices a text backwards panics, which is `none`. Persistence is an effect
-- whether or not a database is open, and a cancelled worker is told to stop by a task of its own,
-- which is not here.
pub mod Poll
pub mod Completion
pub mod Bounds
pub mod Turns
mod Tests
use zeptopm.Base.{
  ℕ, suc, ◌+◌, ◌-◌, ◌*◌, String, Bool, true, false, not, ◌&&◌, ◌||◌, if◌then◌else◌, ltb, Option,
  none, some, List, [], ◌∷◌, ◌++◌, map, filter, any, first, is_empty, length, Map, get, remove,
  keys, contains_key, str_eq, is_some_and, unwrap_or, map_option, ◌⊎◌, inl, inr, format, join,
}
use zeptopm.Types.{
  RunId, JobId, ArtifactId, ChannelId, Time, RunStatus, JobStatus, Run, Job, Artifact, Channel,
  ChannelAction, send_to, broadcast, close, no_op, ExecutionPlan, job_status_eq, run_status_eq,
}
use zeptopm.Store.{
  RunStore, get_job, get_artifact, get_channel, create_artifact, list_runs, remove_run,
  all_channels_for_job,
}
use zeptopm.Planner.{Site, validate_plan, materialize_plan}
use zeptopm.Engine.{
  Engine, Env, submit_run, record_heartbeat, stale_jobs, mark_completed, mark_failed,
}
use zeptopm.Engine.Review.{ReviewDecision, handle_review_completion}
use zeptopm.Engine.Channels.{route_channel_message, handle_channel_done}
use zeptopm.Json.{Json, get_str, str_or_empty, get_texts}
use zeptopm.Review.{extract_json, parse_review_decision}
use zeptopm.Agent.{AgentStatus, AgentCommand, channel_message, agent_status_eq}
use zeptopm.Daemon.{worker_name, cancel_run}
use zeptopm.Daemon.World.{
  InternalAgent, World, Host, Effect, emit, send, persist_run_state, persist_artifact, delete_run,
  remove_file,
}
use zeptopm.Daemon.Workers.{
  spawn_ready, activate_channels, stop_worker, handle_channel_peer_failures,
}
use zeptopm.Daemon.Closing.{complete_closed_channel_participants}

-- The run of a job or of a channel, or the empty id.
abbrev run_of_job : JobId → World → RunId
run_of_job job_id w =
    unwrap_or (map_option (λ (j : Job). j.run_id) (get_job job_id w.engine.store)) ""

abbrev run_of_channel : ChannelId → World → RunId
run_of_channel channel_id w =
    unwrap_or (map_option (λ (c : Channel). c.run_id) (get_channel channel_id w.engine.store)) ""

-- What most handlers end with: spawn what is ready, activate channels and persist the run. The loop
-- takes one id from the queue in each round but the last.
unfoldable pub settle : Env → Host → RunId → World → World
settle env host run_id w =
    let w' = activate_channels (spawn_ready (suc (length w.engine.ready_queue)) env host w) in
    emit (persist_run_state run_id w'.engine.store) w'

unfoldable pub on_heartbeat : Env → Json → World → World
on_heartbeat env event w = record w {
  engine = record_heartbeat env (str_or_empty "job_id" event) w.engine;
}

abbrev has_role : String → JobId → World → Bool
has_role role job_id w =
    is_some_and (λ (j : Job). str_eq j.role role) (get_job job_id w.engine.store)

abbrev is_ready_id : RunStore → JobId → Bool
is_ready_id s jid =
    is_some_and (λ (j : Job). job_status_eq j.status JobStatus.ready) (get_job jid s)

-- A valid plan becomes jobs and channels; the ready ones are queued.
unfoldable pub apply_plan : Env → RunId → JobId → ExecutionPlan → World → World
apply_plan env run_id job_id plan w =
    let (store', new_job_ids, counter) =
      materialize_plan (record { home = env.home; now = env.system }) run_id job_id plan w.counter
        w.engine.store in
    record w {
      counter = counter;
      engine = record w.engine {
        store = store';
        ready_queue = w.engine.ready_queue ++ filter (is_ready_id store') new_job_ids;
      };
    }

unfoldable pub take_plan : Env → RunId → JobId → String ⊎ ExecutionPlan → World → World
take_plan env run_id job_id (inl error) w =
    let why = format ("malformed plan output: " ∷ error ∷ []) in
    record w { engine = mark_failed env job_id why w.engine }
take_plan env run_id job_id (inr plan) w =
    let errors = validate_plan plan in
    let why = format ("invalid plan: " ∷ join "; " errors ∷ []) in
    if is_empty errors
    then apply_plan env run_id job_id plan w
    else record w { engine = mark_failed env job_id why w.engine }

abbrev file_of : Host → Artifact → String
file_of host artifact = unwrap_or (host.read_to_string artifact.path) ""

abbrev first_artifact : List ArtifactId → World → Option Artifact
first_artifact ids w = elim (first ids) [ none ↦ none | some aid ↦ get_artifact aid w.engine.store ]

-- The output of a planner is read as a plan.
unfoldable pub planner_done : Env → Host → RunId → JobId → List ArtifactId → World → Option World
planner_done env host run_id job_id artifacts w = elim (first_artifact artifacts w) [
  | none ↦ some w
  | some artifact ↦ elim (extract_json (file_of host artifact)) [
    | none ↦ none
    | some json_str ↦ some (take_plan env run_id job_id (host.parse_plan json_str) w)
  ]
]

abbrev outputs_of : JobId → World → List ArtifactId
outputs_of job_id w =
    unwrap_or (map_option (λ (j : Job). j.output_artifact_ids) (get_job job_id w.engine.store)) []

unfoldable pub apply_review : Env → JobId → ReviewDecision → World → World
apply_review env job_id decision w =
    let (e, pair, counter) =
      handle_review_completion env job_id decision w.config.daemon.max_revisions w.counter
        w.engine in
    record w { engine = e; counter = counter }

-- The output of a reviewer is read as a decision.
unfoldable pub reviewer_done : Env → Host → JobId → World → Option World
reviewer_done env host job_id w = elim (first_artifact (outputs_of job_id w) w) [
  | none ↦ some w
  | some artifact ↦ elim (parse_review_decision host.texts (file_of host artifact)) [
    | none ↦ none
    | some decision ↦ some (apply_review env job_id decision w)
  ]
]

abbrev when : Bool → (World → Option World) → World → Option World
when true next w = next w
when false next w = some w

abbrev then_review : Env → Host → RunId → JobId → Option World → Option World
then_review env host run_id job_id none = none
then_review env host run_id job_id (some w) =
    map_option (settle env host run_id)
      (when (has_role "reviewer" job_id w) (reviewer_done env host job_id) w)

unfoldable pub on_job_completed : Env → Host → Json → World → Option World
on_job_completed env host event w =
    let job_id = str_or_empty "job_id" event in
    let artifacts = get_texts "output_artifact_ids" event in
    let run_id = run_of_job job_id w in
    let w' = record w {
      managed = remove (worker_name job_id) w.managed;
      engine = mark_completed env job_id artifacts w.engine;
    } in
    then_review env host run_id job_id
      (when (has_role "planner" job_id w) (planner_done env host run_id job_id artifacts) w')

-- What follows the end of a job's worker, by an event or by a timeout.
unfoldable pub fail_job : Env → Host → JobId → String → World → World
fail_job env host job_id error w =
    let w' = handle_channel_peer_failures env job_id w in
    record w' { engine = mark_failed env job_id error w'.engine }

unfoldable pub on_job_failed : Env → Host → Json → World → World
unfolding fail_job
on_job_failed env host event w =
    let job_id = str_or_empty "job_id" event in
    let error = unwrap_or (get_str "error" event) "unknown" in
    let w' = record w { managed = remove (worker_name job_id) w.managed } in
    settle env host (run_of_job job_id w) (fail_job env host job_id error w')

abbrev deliver : ChannelId → String → JobId → World → World
deliver channel_id message job_id w =
    if contains_key (worker_name job_id) w.managed
    then emit (send (worker_name job_id) (channel_message channel_id message)) w
    else w

unfoldable pub deliver_all : ChannelId → String → List JobId → World → World
deliver_all channel_id message [] w = w
deliver_all channel_id message (job_id ∷ job_ids) w =
    deliver_all channel_id message job_ids (deliver channel_id message job_id w)

unfoldable pub act_on_message : Env → Host → ChannelId → ChannelAction → World → World
act_on_message env host channel_id (send_to job_id message) w = deliver channel_id message job_id w
act_on_message env host channel_id (broadcast job_ids message) w =
    deliver_all channel_id message job_ids w
act_on_message env host channel_id (close closed_id) w =
    complete_closed_channel_participants env host closed_id w
act_on_message env host channel_id _ w = w

unfoldable pub on_channel_message : Env → Host → Json → World → World
unfolding act_on_message deliver_all
on_channel_message env host event w =
    let channel_id = str_or_empty "channel_id" event in
    let (e, action) =
      route_channel_message env.system channel_id (str_or_empty "from_job" event)
        (str_or_empty "content" event) w.engine in
    settle env host (run_of_channel channel_id w)
      (act_on_message env host channel_id action (record w { engine = e }))

unfoldable pub act_on_done : Env → Host → ChannelId → ChannelAction → World → World
act_on_done env host channel_id (close closed_id) w =
    complete_closed_channel_participants env host channel_id w
act_on_done env host channel_id _ w = w

unfoldable pub on_channel_done : Env → Host → Json → World → World
unfolding act_on_done
on_channel_done env host event w =
    let channel_id = str_or_empty "channel_id" event in
    let (e, action) = handle_channel_done channel_id (str_or_empty "from_job" event) w.engine in
    settle env host (run_of_channel channel_id w)
      (act_on_done env host channel_id action (record w { engine = e }))

unfoldable pub event_artifact : Env → Json → World → Artifact
event_artifact env event w = record {
  artifact_id = str_or_empty "artifact_id" event;
  run_id = run_of_job (str_or_empty "job_id" event) w;
  job_id = str_or_empty "job_id" event;
  kind = str_or_empty "kind" event;
  path = str_or_empty "path" event;
  summary = str_or_empty "summary" event;
  created_at = env.system;
}

unfoldable pub on_artifact_produced : Env → Json → World → World
on_artifact_produced env event w =
    let artifact = event_artifact env event w in
    emit (persist_artifact artifact)
      (record w { engine = record w.engine { store = create_artifact artifact w.engine.store } })

-- One event of a worker.
unfoldable pub on_event : Env → Host → Json → World → Option World
on_event env host event w =
    let event_type = str_or_empty "type" event in
    if str_eq event_type "heartbeat" || str_eq event_type "progress"
    then some (on_heartbeat env event w)
    else if str_eq event_type "job_completed"
    then on_job_completed env host event w
    else if str_eq event_type "job_failed"
    then some (on_job_failed env host event w)
    else if str_eq event_type "channel_message"
    then some (on_channel_message env host event w)
    else if str_eq event_type "channel_done"
    then some (on_channel_done env host event w)
    else if str_eq event_type "artifact_produced"
    then some (on_artifact_produced env event w)
    else some w

-- `DaemonCommand::SubmitRun` and `DaemonCommand::CancelRun`.
unfoldable pub on_submit : Env → Host → String → World → World × RunId
on_submit env host task w =
    let (e, run_id, counter) = submit_run env task w.counter w.engine in
    (settle env host run_id (record w { engine = e; counter = counter }), run_id)

unfoldable pub on_cancel : Env → RunId → World → World × Bool
on_cancel env run_id w =
    let ((e, managed), ok) = cancel_run env run_id (w.engine, w.managed) in
    let w' = record w { engine = e; managed = managed } in
    ((if ok then emit (persist_run_state run_id e.store) w' else w'), ok)
