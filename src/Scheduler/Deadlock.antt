-- ===== src/Scheduler/Deadlock.antt =====
-- src/orchestrator/scheduler.rs: a run with a job that waits for a failed job.
use zeptopm.Base.{◌≡◌, ◌∙◌, arith, true, false, some, contains, all-eq_false, Bool-cases, inl, inr}
use zeptopm.Types.{RunId, JobId, Time, JobStatus, Job}
use zeptopm.Store.{RunStore, get_job}
use zeptopm.Store.Laws.{IsWellFormed}
use zeptopm.Scheduler.{is_complete, promote_unblocked_jobs, check_run_completion}
use zeptopm.Scheduler.Promotion.{promote_exact}
use zeptopm.Scheduler.Completion.{check_run_completion_iff}

-- A pending job of the run `r` that depends on a failed job.
pub record IsBlocked (s : RunStore) (r : RunId) (k : JobId) (j : Job) (d : JobId) (dep : Job)
    : Type 0 where
  pub found : get_job k s ≡ some j
  pub of_run : j.run_id ≡ r
  pub waits : j.status ≡ JobStatus.pending
  pub depends : contains d j.depends_on ≡ true
  pub dep_found : get_job d s ≡ some dep
  pub dep_failed : dep.status ≡ JobStatus.failed

-- While a job of a run waits for a failed job, in a well-formed store, the promotion leaves it
-- pending and the check does not say that the run is finished: neither a dependent of a failed job
-- nor its run is ever ended by the scheduler.
pub failed_dependency_blocks :
    (s : RunStore) (r : RunId) (now : Time) (k : JobId) (j : Job) (d : JobId) (dep : Job)
    → IsWellFormed s
    → IsBlocked s r k j d dep
    → (get_job k (promote_unblocked_jobs r s).0 ≡ some j)
      × ((check_run_completion r now s).1 ≡ false)
failed_dependency_blocks s r now k j d dep h b = (
  promote_exact s r h k
      ∙ ground (
        arith,
        b.found,
        all-eq_false (is_complete s) d j.depends_on b.depends
            (ground (arith, b.dep_found, b.dep_failed)),
      ),
  elim (Bool-cases (check_run_completion r now s).1) [
    | inr no' ↦ no'
    | inl yes' ↦ absurd (
        ((check_run_completion_iff r now s h).0 yes').1
          (k, j, b.found, b.of_run, ground (arith, b.waits)))
  ],
)
