-- ===== src/Daemon/Hydration.antt =====
-- src/daemon.rs, the start of `run`: what was persisted is put back into a new engine.
pub mod Restart
use zeptopm.Base.{String, Bool, true, false, if◌then◌else◌, none, some, List, [], ◌∷◌, ◌++◌}
use zeptopm.Types.{Time, JobStatus, Run, Job, Artifact, Channel}
use zeptopm.Store.{create_run, create_job, create_artifact, create_channel}
use zeptopm.Engine.{Engine, can_retry}

-- A job that ran when the daemon stopped: its process is gone.
unfoldable pub lost_job : Time → Job → Job
lost_job now job =
    let lost = record job { error = some "daemon restarted — process lost" } in
    if can_retry job
    then record lost { status = JobStatus.ready; finished_at = none }
    else record lost { status = JobStatus.failed; finished_at = some now }

abbrev pub put_job : Bool → Job → Engine → Engine
put_job queued job e = record e {
  store = create_job job e.store;
  ready_queue = if queued then e.ready_queue ++ job.job_id ∷ [] else e.ready_queue;
}

unfoldable pub hydrate_job : Time → Job → JobStatus → Engine → Engine
hydrate_job now job JobStatus.running e = put_job (can_retry job) (lost_job now job) e
hydrate_job now job JobStatus.ready e = put_job true job e
hydrate_job now job _ e = put_job false job e

unfoldable pub hydrate_jobs : Time → List Job → Engine → Engine
hydrate_jobs now [] e = e
hydrate_jobs now (job ∷ jobs) e = hydrate_jobs now jobs (hydrate_job now job job.status e)

unfoldable pub hydrate_runs : List Run → Engine → Engine
hydrate_runs [] e = e
hydrate_runs (run ∷ runs) e = hydrate_runs runs (record e { store = create_run run e.store })

unfoldable pub hydrate_artifacts : List Artifact → Engine → Engine
hydrate_artifacts [] e = e
hydrate_artifacts (artifact ∷ artifacts) e =
    hydrate_artifacts artifacts (record e { store = create_artifact artifact e.store })

-- An open channel waits again for its participants.
abbrev pub idle_channel : Channel → Channel
idle_channel ch = if ch.closed then ch else record ch { active = false }

unfoldable pub hydrate_channels : List Channel → Engine → Engine
hydrate_channels [] e = e
hydrate_channels (ch ∷ chs) e =
    hydrate_channels chs (record e { store = create_channel (idle_channel ch) e.store })

-- The four loads in their order; one that fails loads nothing, as an empty list.
unfoldable pub hydrate : Time → List Run → List Job → List Artifact → List Channel → Engine → Engine
unfolding hydrate_jobs hydrate_job hydrate_runs hydrate_artifacts hydrate_channels
hydrate now runs jobs artifacts channels e =
    hydrate_channels channels
      (hydrate_artifacts artifacts (hydrate_jobs now jobs (hydrate_runs runs e)))
