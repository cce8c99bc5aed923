-- ===== src/Engine/Incidents.antt =====
-- src/orchestrator/engine.rs: what happens when a call comes that the engine does not guard against.
use zeptopm.Base.{
  ◌<◌, ◌≡◌, refl, arith, none, some, List, ◌∷◌, length, get, length-remove-le, str_eq_refl,
}
use zeptopm.Types.{JobId, ArtifactId, Job, JobStatus}
use zeptopm.Store.{get_job}
use zeptopm.Store.Laws.{get_job-modify_job}
use zeptopm.Engine.{Engine, Env, complete_job, mark_completed, pop_ready, next_job}

-- `mark_completed` does not ask whether the job is active: if a completion is reported for the job
-- at the front of the queue, which is not active, that job is recorded as completed and stays in
-- the queue, and `next_job` hands the completed job out to be executed once more.
pub late_completion_runs_again :
    (env : Env) (k : JobId) (rest : List JobId) (outputs : List ArtifactId) (e : Engine) (job : Job)
    → e.ready_queue ≡ k ∷ rest
    → get k e.active_jobs ≡ none
    → get_job k e.store ≡ some job
    → length e.active_jobs < e.max_concurrency
    → (again : Job) × ((next_job (mark_completed env k outputs e)).1 ≡ some again)
      × (again.status ≡ JobStatus.completed)
      × (again.instruction ≡ job.instruction)
unfolding mark_completed next_job pop_ready complete_job
late_completion_runs_again env k rest outputs e job front idle found room =
    let done = complete_job env.system outputs job in
    (
      done,
      ground (
        arith,
        front,
        idle,
        found,
        room,
        get_job-modify_job k k (complete_job env.system outputs) e.store,
        str_eq_refl k,
        length-remove-le k e.active_jobs,
      ),
      refl,
      refl,
    )
