-- ===== src/Daemon.antt =====
-- src/daemon.rs, `cancel_run`. `A` is what the daemon keeps of a worker, whose process it tells to
-- stop in a task of its own; only that the worker is taken out of the map is state.
pub mod Cancellation
pub mod Hydration
pub mod World
pub mod Samples
pub mod Supervision
pub mod Workers
pub mod Closing
pub mod Handlers
pub mod Shutdown
pub mod Queries
mod Tests
use zeptopm.Base.{
  String, Bool, true, false, not, ◌||◌, if◌then◌else◌, Option, none, some, List, [], ◌∷◌, map,
  filter, Map, get, remove, str_eq, format, ◌⊎◌, inl, inr,
}
use zeptopm.Types.{RunId, JobId, Time, RunStatus, JobStatus, Run, Job, run_status_eq}
use zeptopm.Store.{RunStore, get_run, get_job, modify_run, list_run_jobs}
use zeptopm.Engine.{Engine, Env, mark_failed}

-- The name of the worker of a job.
abbrev pub worker_name : JobId → String
worker_name job_id = format ("__job_" ∷ job_id ∷ [])

abbrev pub set_cancelled : Time → Run → Run
set_cancelled now run = record run { status = RunStatus.cancelled; updated_at = now }

-- `retain` of the ids whose job is gone or of another run.
abbrev pub is_retained : RunId → RunStore → JobId → Bool
is_retained run_id s jid = elim (get_job jid s) [
  | none ↦ true
  | some j ↦ not (str_eq j.run_id run_id)
]

unfoldable pub drain : RunId → Engine → Engine
drain run_id e = record e { ready_queue = filter (is_retained run_id e.store) e.ready_queue }

abbrev pub jobs_to_cancel : List Job → List (JobId × JobStatus)
jobs_to_cancel = map (λ (j : Job). (j.job_id, j.status))

abbrev pub can_cancel : Run → Bool
can_cancel run =
    run_status_eq run.status RunStatus.running || run_status_eq run.status RunStatus.pending

module _ {A : Type 0} (env : Env) where
  -- One round of the loop, on the status that was collected before it.
  unfoldable pub cancel_job : JobId × JobStatus → Engine × Map A → Engine × Map A
  cancel_job (job_id, JobStatus.running) (e, managed) =
      (mark_failed env job_id "cancelled by user" e, remove (worker_name job_id) managed)
  cancel_job (job_id, JobStatus.ready) (e, managed) =
      (mark_failed env job_id "cancelled by user" e, managed)
  cancel_job (job_id, JobStatus.pending) (e, managed) =
      (mark_failed env job_id "cancelled by user" e, managed)
  cancel_job (job_id, _) (e, managed) = (e, managed)

  unfoldable pub cancel_jobs : List (JobId × JobStatus) → Engine × Map A → Engine × Map A
  cancel_jobs [] d = d
  cancel_jobs (p ∷ ps) d = cancel_jobs ps (cancel_job p d)

  abbrev pub finish_cancel : RunId → Engine × Map A → Engine × Map A
  finish_cancel run_id (e, managed) =
      let e' = drain run_id e in
      (record e' { store = modify_run run_id (set_cancelled env.system) e'.store }, managed)

  -- The new state and whether the answer is `Ok`.
  unfoldable pub cancel_run : RunId → Engine × Map A → (Engine × Map A) × Bool
  unfolding cancel_jobs cancel_job drain
  cancel_run run_id (e, managed) = elim (get_run run_id e.store) [
    | none ↦ ((e, managed), false)
    | some run ↦
        if can_cancel run
        then (
          finish_cancel run_id
              (cancel_jobs (jobs_to_cancel (list_run_jobs run_id e.store)) (e, managed)),
          true,
        )
        else ((e, managed), false)
  ]
