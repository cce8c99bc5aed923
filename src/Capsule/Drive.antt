-- ===== src/Capsule/Drive.antt =====
-- src/capsule.rs, `spawn_capsule_job`: a job in a capsule, from its creation to its end. What the
-- calls of the crate `zeptocapsule` and of the file system answer is an `Outcomes`; what comes from
-- the daemon and from the worker's pipe is an `Input`. Events to the orchestrator and what is done
-- outside are lists in the order of time.
pub mod Events
pub mod Leaving
pub mod Loop
pub mod Ends
use zeptopm.Base.{
  String, Bool, true, false, not, ◌&&◌, ◌||◌, if◌then◌else◌, Option, none, some, List, [], ◌∷◌,
  ◌++◌, filter_map, Map, get, str_eq, unwrap_or, map_option, format, path_join,
}
use zeptopm.Types.{JobId, ArtifactId, Job, Artifact}
use zeptopm.Store.{RunStore, get_artifact}
use zeptopm.Config.{Config}
use zeptopm.Json.{Json, Field, text, array, get_str, str_or_empty, get_bool}
use zeptopm.Agent.{AgentCommand, stop}
use zeptopm.Capsule.{
  CapsuleSpec, CapsuleReport, capsule_spec_from_config, guest_workspace_path, build_worker_env,
  job_failed, capsule_failure_event,
}
use zeptopm.Capsule.Paths.{translate_guest_event_paths}

-- An input artifact as the job's specification names it.
pub record InputArtifact : Type 0 where
  pub artifact_id : ArtifactId
  pub path : String
  pub kind : String
  pub summary : String

-- The file from which the worker reads its job.
pub record JobSpec : Type 0 where
  pub job_id : JobId
  pub instruction : String
  pub input_artifacts : List InputArtifact

pub data CapsuleEffect : Type 0 where
  create : CapsuleSpec → CapsuleEffect
  create_dir_all : String → CapsuleEffect
  write : String → JobSpec → CapsuleEffect
  spawn : String → List String → Map String → CapsuleEffect
  kill : CapsuleEffect
  remove_file : String → CapsuleEffect
  destroy : CapsuleEffect

-- The error of each call, if it fails, and the report at the end.
pub record Outcomes : Type 0 where
  pub create_error : Option String
  pub create_dir_error : Option String
  pub write_error : Option String
  pub spawn_error : Option String
  pub report : Option CapsuleReport

pub data Input : Type 0 where
  command : AgentCommand → Input
  commands_closed : Input
  line : Json → Input
  -- A line that is no JSON.
  invalid_line : Input
  pipe_closed : Input
  pipe_error : String → Input

pub record Drive : Type 0 where
  pub events : List Json
  pub effects : List CapsuleEffect
  pub saw_terminal_event : Bool
  pub suppress_terminal_event : Bool
  pub deferred_failure : Option Json
  pub is_open : Bool

abbrev pub start : Drive
start = record {
  events = [];
  effects = [];
  saw_terminal_event = false;
  suppress_terminal_event = false;
  deferred_failure = none;
  is_open = true;
}

-- What the task is started with.
pub record Task : Type 0 where
  pub job : Job
  pub spec : CapsuleSpec
  pub worker_binary : String
  pub env : Map String
  pub host_spec_path : String
  pub guest_spec_path : String
  pub input_artifacts : List InputArtifact

abbrev pub send : Json → Drive → Drive
send event d = record d { events = d.events ++ event ∷ [] }

abbrev pub act : CapsuleEffect → Drive → Drive
act effect d = record d { effects = d.effects ++ effect ∷ [] }

abbrev pub stopped : Drive → Drive
stopped d = act kill (record d { suppress_terminal_event = true; is_open = false })

abbrev pub on_command : AgentCommand → Drive → Drive
on_command stop d = stopped d
on_command _ d = d

abbrev pub terminal : Json → Drive → Drive
terminal event d = send event (record d { saw_terminal_event = true; is_open = false })

abbrev pub completed : JobId → Json → Json
completed job_id event =
    ("type", text "job_completed")
    ∷ ("job_id", text job_id)
    ∷ ("output_artifact_ids", unwrap_or (get "output_artifact_ids" event) (array []))
    ∷ []

abbrev pub failed : JobId → Json → Json
failed job_id event =
    job_failed job_id (unwrap_or (get_str "error" event) "unknown error")
      (unwrap_or (get_bool "retryable" event) false)

abbrev pub translated : Task → Json → Json
translated t event =
    translate_guest_event_paths event t.spec.workspace.guest_path t.job.workspace_dir

unfoldable pub on_line : Task → Json → Drive → Drive
on_line t event d =
    let event_type = str_or_empty "type" event in
    if str_eq event_type "heartbeat" || str_eq event_type "progress"
    then send event d
    else if str_eq event_type "artifact_produced"
    then send (translated t event) d
    else if str_eq event_type "job_completed"
    then terminal (completed t.job.job_id event) d
    else if str_eq event_type "job_failed"
    then terminal (failed t.job.job_id event) d
    else d

abbrev pub read_failed : Task → String → Drive → Drive
read_failed t e d = record d {
  deferred_failure = some (job_failed t.job.job_id (format ("pipe read error: " ∷ e ∷ [])) true);
  is_open = false;
}

-- One round of the loop.
unfoldable pub on_input : Task → Input → Drive → Drive
unfolding on_line
on_input t (command cmd) d = on_command cmd d
on_input t commands_closed d = stopped d
on_input t (line event) d = on_line t event d
on_input t invalid_line d = d
on_input t pipe_closed d = record d { is_open = false }
on_input t (pipe_error e) d = read_failed t e d

-- The loop, until it is left; inputs after that are not read.
unfoldable pub serve : Task → List Input → Drive → Drive
serve t [] d = d
serve t (input ∷ inputs) d =
    let rest = serve t inputs (on_input t input d) in if d.is_open then rest else d

abbrev pub last_failure : Task → Option CapsuleReport → Drive → Json
last_failure t report d =
    unwrap_or d.deferred_failure
      (capsule_failure_event t.job.job_id report "worker exited unexpectedly (pipe EOF)")

-- After the loop.
unfoldable pub finish : Task → Option CapsuleReport → Drive → Drive
finish t report d =
    let d' = act destroy (act (remove_file t.host_spec_path) d) in
    if not d.saw_terminal_event && not d.suppress_terminal_event
    then send (last_failure t report d) d'
    else d'

-- A failure before the loop; `what` says which call failed.
abbrev pub give_up : Task → String → String → Drive → Drive
give_up t what e d = record (send (job_failed t.job.job_id (format (what ∷ e ∷ [])) true) d) {
  is_open = false;
}

-- The loop and what follows, if it has been left; otherwise the state in which it waits.
unfoldable pub drive : Task → Outcomes → List Input → Drive → Drive
drive t o inputs d = let d' = serve t inputs d in if d'.is_open then d' else finish t o.report d'

abbrev pub arguments : Task → List String
arguments t = "--job-spec" ∷ t.guest_spec_path ∷ "--job-id" ∷ t.job.job_id ∷ []

abbrev pub after_write : Task → Outcomes → List Input → Drive → Drive
after_write t o inputs d =
    let d' = act (spawn t.worker_binary (arguments t) t.env) d in
    elim o.spawn_error [
      | some e ↦ act destroy (give_up t "capsule spawn failed: " e d')
      | none ↦ drive t o inputs d'
    ]

abbrev pub job_spec : Task → JobSpec
job_spec t = record {
  job_id = t.job.job_id;
  instruction = t.job.instruction;
  input_artifacts = t.input_artifacts;
}

abbrev pub after_create_dir : Task → Outcomes → List Input → Drive → Drive
after_create_dir t o inputs d =
    let d' = act (write t.host_spec_path (job_spec t)) d in
    elim o.write_error [
      | some e ↦ act destroy (give_up t "failed to write job spec: " e d')
      | none ↦ after_write t o inputs d'
    ]

abbrev pub after_create : Task → Outcomes → List Input → Drive → Drive
after_create t o inputs d =
    let d' = act (create_dir_all t.job.workspace_dir) d in
    elim o.create_dir_error [
      | some e ↦ act destroy (give_up t "failed to create workspace: " e d')
      | none ↦ after_create_dir t o inputs d'
    ]

-- The spawned task.
unfoldable pub run_task : Task → Outcomes → List Input → Drive
unfolding drive
run_task t o inputs = elim o.create_error [
  | some e ↦ give_up t "capsule creation failed: " e start
  | none ↦ after_create t o inputs (act (create t.spec) start)
]

abbrev input_artifact : Artifact → InputArtifact
input_artifact a = record {
  artifact_id = a.artifact_id;
  path = a.path;
  kind = a.kind;
  summary = a.summary;
}

abbrev pub task_of : Map String → Job → Config → RunStore → Task
task_of vars job config store =
    let name = format ("job-" ∷ job.job_id ∷ ".json" ∷ []) in
    record {
      job = job;
      spec = capsule_spec_from_config config job;
      worker_binary = unwrap_or config.daemon.zeptoclaw_binary "zeptoclaw";
      env = build_worker_env vars config;
      host_spec_path = path_join job.workspace_dir name;
      guest_spec_path = path_join (guest_workspace_path config job) name;
      input_artifacts =
          filter_map (λ aid. map_option input_artifact (get_artifact aid store))
            job.input_artifact_ids;
    }

unfoldable pub spawn_capsule_job :
    Map String → Job → Config → RunStore → Outcomes → List Input → Drive
unfolding run_task
spawn_capsule_job vars job config store o inputs = run_task (task_of vars job config store) o inputs
