-- ===== src/Scheduler.antt =====
-- src/orchestrator/scheduler.rs: promotion of the jobs whose dependencies are completed, the
-- completion of a run, and fresh ids. The clock and the id counter are arguments.
pub mod Promotion
pub mod Completion
pub mod Frame
pub mod Deadlock
mod Tests
use zeptopm.Base.{
  ℕ, ◌+◌, ◌%◌, String, Bool, true, false, not, ◌||◌, if◌then◌else◌, Option, none, some, List, [],
  ◌∷◌, ◌++◌, map, filter, any, all, flat_map, is_empty, contains, is_some, is_some_and, format,
  show_nat, u64_mod,
}
use zeptopm.Types.{RunId, JobId, ArtifactId, Time, RunStatus, JobStatus, Run, Job, job_status_eq}
use zeptopm.Store.{RunStore, get_job, modify_job, get_run, update_run, list_run_jobs}

abbrev pub set_ready : Job → Job
set_ready j = record j { status = JobStatus.ready }

-- Is the dependency found, and completed?
abbrev pub is_complete : RunStore → JobId → Bool
is_complete s dep_id =
    is_some_and (λ (j : Job). job_status_eq j.status JobStatus.completed) (get_job dep_id s)

-- One round of the promotion loop: the new store and the id, if it was promoted.
promote_one : RunStore → JobId × List JobId → RunStore × List JobId
promote_one s (job_id, deps) =
    if all (is_complete s) deps
    then (if is_some (get_job job_id s)
        then (modify_job job_id set_ready s, job_id ∷ [])
        else (s, []))
    else (s, [])

promote_loop : RunStore → List (JobId × List JobId) → RunStore × List JobId
promote_loop s [] = (s, [])
promote_loop s (p ∷ ps) =
    let (s', promoted) = promote_one s p in
    let (s'', rest) = promote_loop s' ps in (s'', promoted ++ rest)

-- The pending jobs of a run with their dependencies, collected before the loop.
abbrev pending_jobs : List Job → List (JobId × List JobId)
pending_jobs jobs =
    map (λ (j : Job). (j.job_id, j.depends_on))
      (filter (λ (j : Job). job_status_eq j.status JobStatus.pending) jobs)

unfoldable pub promote_unblocked_jobs : RunId → RunStore → RunStore × List JobId
unfolding promote_loop promote_one
promote_unblocked_jobs run_id s = promote_loop s (pending_jobs (list_run_jobs run_id s))

-- `matches!(status, Pending | Ready | Running)`
abbrev pub is_active : JobStatus → Bool
is_active JobStatus.pending = true
is_active JobStatus.ready = true
is_active JobStatus.running = true
is_active _ = false

-- The artifacts of the jobs that no job of the run depends on.
unfoldable pub leaf_artifacts : List Job → List ArtifactId
leaf_artifacts jobs =
    let dep_targets = flat_map (λ (j : Job). j.depends_on) jobs in
    flat_map (λ (j : Job). j.output_artifact_ids)
      (filter (λ (j : Job). not (contains j.job_id dep_targets)) jobs)

-- The run as `check_run_completion` writes it back once no job is active.
abbrev pub settle : List Job → Time → Run → Run
settle jobs now run = record run {
  status =
      if any (λ (j : Job). job_status_eq j.status JobStatus.failed) jobs
      then RunStatus.failed
      else RunStatus.completed;
  updated_at = now;
  final_artifact_ids = leaf_artifacts jobs;
}

unfoldable pub check_run_completion : RunId → Time → RunStore → RunStore × Bool
check_run_completion run_id now s =
    let jobs = list_run_jobs run_id s in
    if is_empty jobs
    then (s, false)
    else if any (λ (j : Job). is_active j.status) jobs
    then (s, false)
    else elim (get_run run_id s) [
      | none ↦ (s, true)
      | some run ↦ (update_run (settle jobs now run) s, true)
    ]

-- A unique id with a prefix: the time in milliseconds and the counter, which `fetch_add` moves on.
unfoldable pub gen_id : String → Time → ℕ → String × ℕ
gen_id prefix ts n =
    (format (prefix ∷ "_" ∷ show_nat ts ∷ "_" ∷ show_nat n ∷ []), (n + 1) % u64_mod)
