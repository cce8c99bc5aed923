-- ===== src/Daemon/Queries.antt =====
-- src/daemon.rs: what the daemon answers about its runs. The JSON objects of the source are records
-- with the same fields; an `Instant` is in milliseconds.
pub mod Results
use zeptopm.Base.{
  ℕ, ◌-◌, ◌/◌, String, Bool, true, false, not, ◌&&◌, if◌then◌else◌, Option, none, some, List, [],
  ◌∷◌, map, filter, flat_map, filter_map, Map, get, keys, length, str_eq, map_option, is_some,
  strip_prefix, format, take_chars, unwrap_or, ◌⊎◌, inl, inr,
}
use zeptopm.Types.{
  RunId, JobId, ArtifactId, Time, RunStatus, JobStatus, Run, Job, Artifact, run_status_eq,
  job_status_eq,
}
use zeptopm.Store.{RunStore, get_run, get_artifact, list_runs, list_run_jobs}
use zeptopm.Persistence.Texts.{debug_run_status, debug_job_status}
use zeptopm.Engine.{Engine}
use zeptopm.Config.{Config}
use zeptopm.Daemon.World.{InternalAgent}

unfoldable pub sandbox_mode_label : Config → Option Bool → String
sandbox_mode_label config (some true) = "forced_on"
sandbox_mode_label config (some false) = "forced_off"
sandbox_mode_label config none =
    if str_eq config.daemon.isolation "none" then "config_off" else "config_on"

pub record JobInfo : Type 0 where
  pub job_id : JobId
  pub role : String
  pub status : String
  pub instruction : String
  pub attempt : ℕ
  pub revision_round : ℕ
  pub error : Option String
  pub last_heartbeat_secs_ago : Option ℕ

pub record RunInfo : Type 0 where
  pub run_id : RunId
  pub task : String
  pub status : String

pub record RunStatusData : Type 0 where
  pub run : RunInfo
  pub jobs : List JobInfo

abbrev pub not_found : RunId → String
not_found run_id = format ("run '" ∷ run_id ∷ "' not found" ∷ [])

abbrev job_info : Engine → Time → Job → JobInfo
job_info e now j = record {
  job_id = j.job_id;
  role = j.role;
  status = debug_job_status j.status;
  instruction = take_chars 100 j.instruction;
  attempt = j.attempt;
  revision_round = j.revision_round;
  error = j.error;
  last_heartbeat_secs_ago = map_option (λ t. (now - t) / 1000) (get j.job_id e.last_heartbeat);
}

abbrev run_info : Run → RunInfo
run_info r = record { run_id = r.run_id; task = r.task; status = debug_run_status r.status }

unfoldable pub get_run_status_data : Engine → Time → RunId → String ⊎ RunStatusData
get_run_status_data e now run_id = elim (get_run run_id e.store) [
  | none ↦ inl (not_found run_id)
  | some run ↦
      inr
        (record { run = run_info run; jobs = map (job_info e now) (list_run_jobs run_id e.store) })
]

pub record ArtifactInfo : Type 0 where
  pub artifact_id : ArtifactId
  pub job_id : JobId
  pub kind : String
  pub path : String
  pub summary : String
  pub content : Option String

pub record RunResultData : Type 0 where
  pub run : RunInfo
  pub artifacts : List ArtifactInfo

abbrev pub artifact_info : (String → Option String) → Artifact → ArtifactInfo
artifact_info read a = record {
  artifact_id = a.artifact_id;
  job_id = a.job_id;
  kind = a.kind;
  path = a.path;
  summary = a.summary;
  content = read a.path;
}

-- The artifacts of one job, unless it is not completed.
unfoldable pub job_artifacts : (String → Option String) → RunStore → Job → List ArtifactInfo
job_artifacts read s job =
    if job_status_eq job.status JobStatus.completed
    then filter_map (λ aid. map_option (artifact_info read) (get_artifact aid s))
        job.output_artifact_ids
    else []

-- `read` is `std::fs::read_to_string`.
unfoldable pub get_run_result_data :
    (String → Option String) → Engine → RunId → String ⊎ RunResultData
unfolding job_artifacts
get_run_result_data read e run_id = elim (get_run run_id e.store) [
  | none ↦ inl (not_found run_id)
  | some run ↦ inr (record {
    run = run_info run;
    artifacts = flat_map (job_artifacts read e.store) (list_run_jobs run_id e.store);
  })
]

pub record Metrics : Type 0 where
  pub uptime_secs : ℕ
  pub agents : ℕ
  pub active_workers : ℕ
  pub total : ℕ
  pub running : ℕ
  pub completed : ℕ
  pub failed : ℕ
  pub pending_jobs : ℕ

abbrev pub is_job_worker : String → Bool
is_job_worker k = is_some (strip_prefix "__job_" k)

abbrev count_runs : RunStatus → RunStore → ℕ
count_runs status s = length (filter (λ (r : Run). run_status_eq r.status status) (list_runs s))

unfoldable pub get_metrics_data : Engine → Map InternalAgent → Time → Time → Metrics
get_metrics_data e managed daemon_start now = record {
  uptime_secs = (now - daemon_start) / 1000;
  agents = length (filter (λ k. not (is_job_worker k)) (keys managed));
  active_workers = length (filter is_job_worker (keys managed));
  total = length (list_runs e.store);
  running = count_runs RunStatus.running e.store;
  completed = count_runs RunStatus.completed e.store;
  failed = count_runs RunStatus.failed e.store;
  pending_jobs = length e.ready_queue;
}

unfoldable pub get_runs_list_data : Engine → List RunInfo
get_runs_list_data e = map run_info (list_runs e.store)
