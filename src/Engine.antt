-- ===== src/Engine.antt =====
-- src/orchestrator/engine.rs: `OrchestratorEngine`, the queue of ready jobs, the active jobs and
-- their heartbeats, over the store. A method that mutates returns the new engine. The two clocks and
-- the home directory are read once in each call and come in an `Env`; the counter of `gen_id` is
-- threaded through the calls that make ids.
pub mod Review
pub mod Channels
pub mod Queue
pub mod Calls
pub mod Bounds
pub mod Lifecycle
pub mod Incidents
mod Tests
use zeptopm.Base.{
  ℕ, ◌+◌, ◌-◌, ◌%◌, String, Bool, true, false, if◌then◌else◌, ltb, leb, Option, none, some, List,
  [], ◌∷◌, ◌++◌, map, filter, length, keys, Map, get, insert, remove, contains_key, is_some_and,
  unwrap_or, map_option, u32_mod,
}
use zeptopm.Types.{
  RunId, JobId, ArtifactId, Time, RunStatus, JobStatus, Run, Job, job_status_eq, run_status_eq,
}
use zeptopm.Store.{RunStore, create_run, update_run, get_run, create_job, get_job, modify_job}
use zeptopm.Store
use zeptopm.Scheduler.{promote_unblocked_jobs, check_run_completion, gen_id}
use zeptopm.Planner.{resolve_workspace}

pub record Engine : Type 0 where
  pub store : RunStore
  pub ready_queue : List JobId
  pub max_concurrency : ℕ
  pub active_jobs : Map RunId
  pub last_heartbeat : Map Time

-- `SystemTime::now()`, `Instant::now()` and the home directory, as a call finds them.
pub record Env : Type 0 where
  pub system : Time
  pub instant : Time
  pub home : Option String

unfoldable pub new : ℕ → Engine
unfolding Store.new
new max_concurrency = record {
  store = Store.new;
  ready_queue = [];
  max_concurrency = max_concurrency;
  active_jobs = [];
  last_heartbeat = [];
}

unfoldable pub planner_job : Env → RunId → JobId → String → Job
planner_job env run_id root_job_id task = record {
  job_id = root_job_id;
  run_id = run_id;
  parent_job_id = none;
  role = "planner";
  status = JobStatus.ready;
  instruction = task;
  input_artifact_ids = [];
  depends_on = [];
  children = [];
  profile_id = "planner";
  workspace_dir = resolve_workspace env.home run_id root_job_id;
  attempt = 0;
  max_attempts = 3;
  created_at = env.system;
  started_at = none;
  finished_at = none;
  output_artifact_ids = [];
  error = none;
  revision_round = 0;
}

unfoldable pub new_run : Env → RunId → JobId → String → Run
new_run env run_id root_job_id task = record {
  run_id = run_id;
  task = task;
  status = RunStatus.pending;
  created_at = env.system;
  updated_at = env.system;
  root_job_id = root_job_id;
  final_artifact_ids = [];
  metadata = [];
}

-- Submit a new run: the run and its root job, the planner.
unfoldable pub submit_run : Env → String → ℕ → Engine → Engine × RunId × ℕ
submit_run env task counter e =
    let (run_id, counter') = gen_id "run" env.system counter in
    let (root_job_id, counter'') = gen_id "job" env.system counter' in
    (
      record e {
        store =
            create_job (planner_job env run_id root_job_id task)
              (create_run (new_run env run_id root_job_id task) e.store);
        ready_queue = e.ready_queue ++ root_job_id ∷ [];
      },
      run_id,
      counter'',
    )

-- The part of `next_job` below the test of the limit. An id whose job is gone is dropped.
pop_ready : List JobId → Engine → Engine × Option Job
pop_ready [] e = (e, none)
pop_ready (job_id ∷ rest) e = elim (get_job job_id e.store) [
  | none ↦ (record e { ready_queue = rest }, none)
  | some job ↦ (
    record e { ready_queue = rest; active_jobs = insert job_id job.run_id e.active_jobs },
    some job,
  )
]

-- Take the next ready job if under the concurrency limit.
unfoldable pub next_job : Engine → Engine × Option Job
unfolding pop_ready
next_job e =
    if leb e.max_concurrency (length e.active_jobs) then (e, none) else pop_ready e.ready_queue e

unfoldable pub start_attempt : Time → Job → Job
start_attempt now j = record j {
  status = JobStatus.running;
  started_at = some now;
  attempt = (j.attempt + 1) % u32_mod;
}

-- A pending run becomes running when its first job starts.
unfoldable pub start_run : RunId → Time → RunStore → RunStore
start_run run_id now s = elim (get_run run_id s) [
  | none ↦ s
  | some run ↦
      if run_status_eq run.status RunStatus.pending
      then update_run (record run { status = RunStatus.running; updated_at = now }) s
      else s
]

unfoldable pub mark_running : Env → JobId → Engine → Engine
mark_running env job_id e = elim (get job_id e.active_jobs) [
  | none ↦ e
  | some run_id ↦ record e {
    store = start_run run_id env.system (modify_job job_id (start_attempt env.system) e.store);
    last_heartbeat = insert job_id env.instant e.last_heartbeat;
  }
]

unfoldable pub record_heartbeat : Env → JobId → Engine → Engine
record_heartbeat env job_id e =
    if contains_key job_id e.active_jobs
    then record e { last_heartbeat = insert job_id env.instant e.last_heartbeat }
    else e

-- `duration_since` is zero for a later instant, as `-` on the natural numbers.
abbrev pub is_stale : Time → Time → Option Time → Bool
is_stale now timeout none = true
is_stale now timeout (some t) = ltb timeout (now - t)

unfoldable pub stale_jobs : Time → Time → Engine → List JobId
stale_jobs now timeout e =
    filter (λ job_id. is_stale now timeout (get job_id e.last_heartbeat)) (keys e.active_jobs)

unfoldable pub complete_job : Time → List ArtifactId → Job → Job
complete_job now output_artifact_ids j = record j {
  status = JobStatus.completed;
  finished_at = some now;
  output_artifact_ids = output_artifact_ids;
}

-- Promote what the completed job blocked, and see whether the run is finished.
unfoldable pub after_completion : Time → RunId → Engine → Engine
after_completion now run_id e =
    let (store', promoted) = promote_unblocked_jobs run_id e.store in
    record e {
      store = (check_run_completion run_id now store').0;
      ready_queue = e.ready_queue ++ promoted;
    }

unfoldable pub mark_completed : Env → JobId → List ArtifactId → Engine → Engine
mark_completed env job_id output_artifact_ids e =
    let e' = record e {
      store = modify_job job_id (complete_job env.system output_artifact_ids) e.store;
      active_jobs = remove job_id e.active_jobs;
      last_heartbeat = remove job_id e.last_heartbeat;
    } in
    elim (get job_id e.active_jobs) [
      | none ↦ e'
      | some run_id ↦ after_completion env.system run_id e'
    ]

-- A failed attempt: back to the queue if attempts remain.
unfoldable pub retry_job : String → Job → Job
retry_job error j = record j { status = JobStatus.ready; finished_at = none; error = some error }

unfoldable pub fail_job : String → Time → Job → Job
fail_job error now j = record j {
  status = JobStatus.failed;
  finished_at = some now;
  error = some error;
}

abbrev pub can_retry : Job → Bool
can_retry j = ltb j.attempt j.max_attempts

unfoldable pub fail_or_retry : Time → JobId → String → Engine → Engine
fail_or_retry now job_id error e = elim (get_job job_id e.store) [
  | none ↦ e
  | some job ↦
      if can_retry job
      then record e {
        store = modify_job job_id (retry_job error) e.store;
        ready_queue = e.ready_queue ++ job_id ∷ [];
      }
      else record e { store = modify_job job_id (fail_job error now) e.store }
]

unfoldable pub mark_failed : Env → JobId → String → Engine → Engine
mark_failed env job_id error e =
    let e' = fail_or_retry env.system job_id error (record e {
      active_jobs = remove job_id e.active_jobs;
      last_heartbeat = remove job_id e.last_heartbeat;
    }) in
    elim (get job_id e.active_jobs) [
      | none ↦ e'
      | some run_id ↦ record e' { store = (check_run_completion run_id env.system e'.store).0 }
    ]
