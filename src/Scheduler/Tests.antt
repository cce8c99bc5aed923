-- ===== src/Scheduler/Tests.antt =====
-- src/orchestrator/scheduler.rs: the theorems at concrete inputs.
use zeptopm.Base.{◌≡◌, refl, true, false, some, [], ◌∷◌, get, str_eq, contains, ◌↔◌, ◌⊎◌}
use zeptopm.Types.{JobStatus, RunStatus, Run}
use zeptopm.Store.{RunStore, get_job, get_run, list_run_jobs}
use zeptopm.Scheduler.{promote_unblocked_jobs, check_run_completion, leaf_artifacts}
use zeptopm.Scheduler.Promotion.{promote_exact, promote_lists}
use zeptopm.Scheduler.Completion.{
  JobOf, is_any, is_open, is_failed, check_run_completion_iff, check_run_completion_outcome,
  leaf_artifacts_exact,
}
use zeptopm.Scheduler.Deadlock.{failed_dependency_blocks}
use zeptopm.Samples.{a_job, a_run, a_store, a_store-IsWellFormed, a_channel}

promote_exact_example :
    get_job "b"
      (promote_unblocked_jobs "r" (a_store JobStatus.completed JobStatus.pending a_channel)).0
    ≡ some (a_job "b" JobStatus.ready ("a" ∷ []))
unfolding get str_eq
promote_exact_example =
    promote_exact (a_store JobStatus.completed JobStatus.pending a_channel) "r"
      (a_store-IsWellFormed JobStatus.completed JobStatus.pending a_channel refl) "b"

promote_lists_example :
    contains "b"
      (promote_unblocked_jobs "r" (a_store JobStatus.failed JobStatus.pending a_channel)).1
    ≡ false
unfolding get str_eq
promote_lists_example =
    promote_lists (a_store JobStatus.failed JobStatus.pending a_channel) "r"
      (a_store-IsWellFormed JobStatus.failed JobStatus.pending a_channel refl) "b"

check_run_completion_iff_example :
    ((check_run_completion "r" 9 (a_store JobStatus.completed JobStatus.failed a_channel)).1 ≡ true)
    ↔ (JobOf (a_store JobStatus.completed JobStatus.failed a_channel) "r" is_any
        × (¬ JobOf (a_store JobStatus.completed JobStatus.failed a_channel) "r" is_open))
check_run_completion_iff_example =
    check_run_completion_iff "r" 9 (a_store JobStatus.completed JobStatus.failed a_channel)
      (a_store-IsWellFormed JobStatus.completed JobStatus.failed a_channel refl)

finished_store_done :
    (check_run_completion "r" 9 (a_store JobStatus.completed JobStatus.failed a_channel)).1 ≡ true
unfolding check_run_completion get str_eq
finished_store_done = refl

abbrev half_failed : RunStore
half_failed = a_store JobStatus.completed JobStatus.failed a_channel

check_run_completion_outcome_example :
    (done : Run) × (get_run "r" (check_run_completion "r" 9 half_failed).0 ≡ some done)
    × ((done.status ≡ RunStatus.failed) ↔ JobOf half_failed "r" is_failed)
    × ((done.status ≡ RunStatus.failed) ⊎ (done.status ≡ RunStatus.completed))
    × (done.updated_at ≡ 9)
    × (done.task ≡ "task")
    × (done.final_artifact_ids ≡ leaf_artifacts (list_run_jobs "r" half_failed))
check_run_completion_outcome_example =
    check_run_completion_outcome "r" 9 half_failed a_run
      (a_store-IsWellFormed JobStatus.completed JobStatus.failed a_channel refl)
      (unfold get str_eq in refl) finished_store_done

leaf_artifacts_exact_example :
    contains "x" (
      leaf_artifacts
        (record (a_job "a" JobStatus.completed []) { output_artifact_ids = "x" ∷ [] } ∷ []))
    ≡ true
unfolding contains str_eq
leaf_artifacts_exact_example =
    leaf_artifacts_exact "x"
      (record (a_job "a" JobStatus.completed []) { output_artifact_ids = "x" ∷ [] } ∷ [])

abbrev stuck : RunStore
stuck = a_store JobStatus.failed JobStatus.pending a_channel

failed_dependency_blocks_example :
    (get_job "b" (promote_unblocked_jobs "r" stuck).0
      ≡ some (a_job "b" JobStatus.pending ("a" ∷ [])))
    × ((check_run_completion "r" 9 stuck).1 ≡ false)
unfolding get str_eq contains
failed_dependency_blocks_example =
    failed_dependency_blocks stuck "r" 9 "b" (a_job "b" JobStatus.pending ("a" ∷ [])) "a"
      (a_job "a" JobStatus.failed [])
      (a_store-IsWellFormed JobStatus.failed JobStatus.pending a_channel refl)
      (record {
        found = refl;
        of_run = refl;
        waits = refl;
        depends = refl;
        dep_found = refl;
        dep_failed = refl;
      })
