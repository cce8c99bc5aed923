-- ===== src/Scheduler/Completion.antt =====
-- src/orchestrator/scheduler.rs, `check_run_completion`: when a run is finished, with what status
-- and with which artifacts.
use zeptopm.Base.{
  String, ◌≡◌, refl, sym, ap, ◌∙◌, arith, ◌↔◌, ◌⊎◌, Bool, true, false, not, ◌&&◌, some, List, [],
  ◌∷◌, values, any, any-filter, is_empty, flat_map, any-get, get-any, contains, contains-append,
  str_eq, str_eq→eq, eq→str_eq, get-insert, Keyed-get, Bool-cases, Option-cases, inl, inr,
}
use zeptopm.Types.{RunId, JobId, ArtifactId, Time, RunStatus, JobStatus, Job, Run, job_status_eq}
use zeptopm.Store.{RunStore, get_job, get_run, update_run, list_run_jobs}
use zeptopm.Store.Laws.{IsWellFormed, run_key, update_run-IsWellFormed}
use zeptopm.Scheduler.{is_active, leaf_artifacts, settle, check_run_completion}

-- A job of the run `r` that passes a test, found in the store.
abbrev pub JobOf : RunStore → RunId → (Job → Bool) → Type 0
JobOf s r p = (k : JobId) × (j : Job) × (get_job k s ≡ some j) × (j.run_id ≡ r) × (p j ≡ true)

abbrev pub is_failed : Job → Bool
is_failed j = job_status_eq j.status JobStatus.failed

abbrev pub is_open : Job → Bool
is_open j = is_active j.status

abbrev pub is_any : Job → Bool
is_any j = true

module _ (s : RunStore) (h : IsWellFormed s) (r : RunId) (p : Job → Bool) where
  any-list_run_jobs→JobOf : any p (list_run_jobs r s) ≡ true → JobOf s r p
  any-list_run_jobs→JobOf e =
      let (k, j, found, t) =
        any-get (λ j. str_eq j.run_id r && p j) s.jobs h.jobs.0
          (sym (any-filter (λ j. str_eq j.run_id r) p (values s.jobs)) ∙ e) in
      (k, j, found, str_eq→eq j.run_id r (ground arith), ground arith)

  JobOf→any-list_run_jobs : JobOf s r p → any p (list_run_jobs r s) ≡ true
  JobOf→any-list_run_jobs (k, j, found, mine, t) =
      any-filter (λ j. str_eq j.run_id r) p (values s.jobs)
      ∙ get-any (λ j. str_eq j.run_id r && p j) k j s.jobs found
          (ground (arith, eq→str_eq j.run_id r mine))

  no_JobOf : any p (list_run_jobs r s) ≡ false → ¬ JobOf s r p
  no_JobOf e j = ground (arith, JobOf→any-list_run_jobs j)

module _ (r : RunId) (now : Time) (s : RunStore) where
  -- The test that the code makes, in one expression.
  is_finished : Bool
  is_finished = any is_any (list_run_jobs r s) && not (any is_open (list_run_jobs r s))

  is_empty-list_run_jobs : is_empty (list_run_jobs r s) ≡ not (any is_any (list_run_jobs r s))
  is_empty-list_run_jobs = is_empty_any (list_run_jobs r s)
    where
      is_empty_any : (js : List Job) → is_empty js ≡ not (any is_any js)
      is_empty_any [] = refl
      is_empty_any (j ∷ js) = refl

  check-eq-is_finished : (check_run_completion r now s).1 ≡ is_finished
  unfolding check_run_completion is_finished
  check-eq-is_finished = ground (arith, is_empty-list_run_jobs)

  -- In a well-formed store the check says that a run is finished exactly when the run has a job and
  -- none of its jobs is pending, ready or running.
  pub check_run_completion_iff :
      IsWellFormed s
      → ((check_run_completion r now s).1 ≡ true) ↔ (JobOf s r is_any × (¬ JobOf s r is_open))
  unfolding is_finished
  check_run_completion_iff h = (
    λ e. (
      any-list_run_jobs→JobOf s h r is_any (ground (arith, check-eq-is_finished)),
      no_JobOf s h r is_open (ground (arith, check-eq-is_finished)),
    ),
    λ e. elim (Bool-cases (any is_open (list_run_jobs r s))) [
      | inl busy ↦ absurd (e.1 (any-list_run_jobs→JobOf s h r is_open busy))
      | inr idle ↦
          ground (arith, check-eq-is_finished, idle, JobOf→any-list_run_jobs s h r is_any e.0)
    ],
  )

  -- The check changes no job, artifact or channel, and no run but `r`.
  pub check_run_completion_frame :
      ((check_run_completion r now s).0.jobs ≡ s.jobs)
      × ((check_run_completion r now s).0.artifacts ≡ s.artifacts)
      × ((check_run_completion r now s).0.channels ≡ s.channels)
  unfolding check_run_completion update_run
  check_run_completion_frame = (ground arith, ground arith, ground arith)

  -- The store after the check is the store before it, or has the run settled.
  check_run_completion_cases :
      ((check_run_completion r now s).0 ≡ s)
      ⊎ ((run : Run) × (get_run r s ≡ some run)
          × ((check_run_completion r now s).1 ≡ true)
          × ((check_run_completion r now s).0 ≡ update_run (settle (list_run_jobs r s) now run) s))
  unfolding check_run_completion
  check_run_completion_cases = elim (Option-cases (get_run r s)) [
    | inl e ↦ inl (ground arith)
    | inr (run, e) ↦ elim (Bool-cases (is_empty (list_run_jobs r s))) [
      | inl empty ↦ inl (rw empty refl)
      | inr some_job ↦ elim (Bool-cases (any is_open (list_run_jobs r s))) [
        | inl busy ↦ inl (rw (some_job, busy) refl)
        | inr idle ↦ inr (run, e, rw (some_job, idle, e) refl, rw (some_job, idle, e) refl)
      ]
    ]
  ]

  pub check_run_completion-IsWellFormed :
      IsWellFormed s → IsWellFormed (check_run_completion r now s).0
  check_run_completion-IsWellFormed h = elim check_run_completion_cases [
    | inl e ↦ rw e h
    | inr (run, _, _, e) ↦ rw e (update_run-IsWellFormed h _)
  ]

  -- In a well-formed store, if the check says that a run on record is finished, then afterwards the
  -- run's status is Failed exactly when one of its jobs is failed, and Completed otherwise; its
  -- final artifacts are those of the jobs on which no job of the run depends, and its task is kept.
  pub check_run_completion_outcome :
      (run : Run)
      → IsWellFormed s
      → get_run r s ≡ some run
      → (check_run_completion r now s).1 ≡ true
      → (done : Run) × (get_run r (check_run_completion r now s).0 ≡ some done)
        × ((done.status ≡ RunStatus.failed) ↔ JobOf s r is_failed)
        × ((done.status ≡ RunStatus.failed) ⊎ (done.status ≡ RunStatus.completed))
        × (done.updated_at ≡ now)
        × (done.task ≡ run.task)
        × (done.final_artifact_ids ≡ leaf_artifacts (list_run_jobs r s))
  unfolding check_run_completion update_run
  check_run_completion_outcome run h found done = (
    settle (list_run_jobs r s) now run,
    ground (
      arith,
      done,
      found,
      get-insert r run.run_id (settle (list_run_jobs r s) now run) s.runs,
      Keyed-get run_key r run s.runs h.runs.1 found,
      eq→str_eq run.run_id r,
    ),
    (
      λ e. any-list_run_jobs→JobOf s h r is_failed (ground arith),
      λ j. ground (arith, JobOf→any-list_run_jobs s h r is_failed j),
    ),
    ground arith,
    refl,
    refl,
    refl,
  )

  -- It leaves every other run as it is.
  pub check_run_completion_other :
      (k : RunId)
      → IsWellFormed s
      → str_eq r k ≡ false
      → get_run k (check_run_completion r now s).0 ≡ get_run k s
  unfolding update_run
  check_run_completion_other k h other = elim check_run_completion_cases [
    | inl e ↦ rw e refl
    | inr (run, found, _, e) ↦ rw e (
        ground (
          arith,
          get-insert k run.run_id (settle (list_run_jobs r s) now run) s.runs,
          Keyed-get run_key r run s.runs h.runs.1 found,
          ap (λ t. str_eq t k) (Keyed-get run_key r run s.runs h.runs.1 found),
        ))
  ]

contains-flat_map :
    (a : String) (f : Job → List String) (js : List Job)
    → contains a (flat_map f js) ≡ any (λ j. contains a (f j)) js
unfolding contains
contains-flat_map a f [] = refl
contains-flat_map a f (j ∷ js) =
    ground (arith, contains-append a (f j) (flat_map f js), contains-flat_map a f js)

any_cong : (p q : Job → Bool) (js : List Job) → ((j : Job) → p j ≡ q j) → any p js ≡ any q js
any_cong p q [] h = refl
any_cong p q (j ∷ js) h = ground (arith, h j, any_cong p q js h)

-- An artifact is among the final artifacts of a list of jobs exactly when some job lists it as its
-- output and is named in the dependencies of no job of the list.
pub leaf_artifacts_exact :
    (a : ArtifactId) (js : List Job)
    → contains a (leaf_artifacts js)
      ≡ any
          (λ (j : Job).
            not (any (λ (d : Job). contains j.job_id d.depends_on) js)
            && contains a j.output_artifact_ids)
          js
unfolding leaf_artifacts
leaf_artifacts_exact a js =
    contains-flat_map a (λ j. j.output_artifact_ids) _
    ∙ any-filter _ (λ j. contains a j.output_artifact_ids) js
    ∙ any_cong _ _ js (λ j.
      ap (λ b. not b && contains a j.output_artifact_ids)
        (contains-flat_map j.job_id (λ d. d.depends_on) js))
