-- ===== src/Daemon/Cancellation/Exact.antt =====
-- src/daemon.rs, `cancel_run`: the whole effect of a cancellation, on the run, its jobs, the queue,
-- the active jobs and the workers.
use zeptopm.Base.{
  String, ◌≡◌, refl, ap, ◌∙◌, arith, Bool, true, false, not, ◌&&◌, if◌then◌else◌, none, some, List,
  [], ◌∷◌, ◌++◌, map, filter, Map, get, remove, get-remove, str_eq, str_eq_refl, contains,
  map_option, is_some_and, Bool-cases, Option-cases, inl, inr, contains-ids_where,
}
use zeptopm.Types.{RunId, JobId, Time, RunStatus, JobStatus, Run, Job, job_status_eq}
use zeptopm.Store.{RunStore, get_run, get_job, modify_run, list_run_jobs}
use zeptopm.Store.Laws.{IsWellFormed, job_key}
use zeptopm.Scheduler.{is_active}
use zeptopm.Engine.{Engine, Env, mark_failed, fail_or_retry, can_retry, retry_job, fail_job}
use zeptopm.Daemon.{
  worker_name, drain, is_retained, cancel_job, cancel_jobs, jobs_to_cancel, can_cancel, cancel_run,
}
use zeptopm.Daemon.Cancellation.{
  active_ids, contains-active_ids, get-jobs_cancelled, has_run-cancel_jobs, status_of,
  status_of-modify_run, cancelled_job, failed_once, cancel_run_eq,
}

filter-snoc_out :
    (p : JobId → Bool) (xs : List JobId) (i : JobId)
    → p i ≡ false
    → filter p (xs ++ i ∷ []) ≡ filter p xs
filter-snoc_out p [] i h = ground (arith, h)
filter-snoc_out p (x ∷ xs) i h = ground (arith, filter-snoc_out p xs i h)

filter-same :
    (p q : JobId → Bool) (xs : List JobId) → ((k : JobId) → p k ≡ q k) → filter p xs ≡ filter q xs
filter-same p q [] h = refl
filter-same p q (x ∷ xs) h = ground (arith, h x, filter-same p q xs h)

-- A job whose id does not count is failed: the ids that count are queued as before.
module _ (p : JobId → Bool) (i : JobId) (out : p i ≡ false) where
  fail_or_retry-queue :
      (now : Time) (e : Engine)
      → (filter p (fail_or_retry now i "cancelled by user" e).ready_queue ≡ filter p e.ready_queue)
        × ((fail_or_retry now i "cancelled by user" e).active_jobs ≡ e.active_jobs)
  unfolding fail_or_retry
  fail_or_retry-queue now e = elim (Option-cases (get_job i e.store)) [
    | inl gone ↦ rw (gone, fail_or_retry) (refl, refl)
    | inr (j, found) ↦ elim (Bool-cases (can_retry j)) [
      | inl again ↦ rw (found, fail_or_retry, again) (filter-snoc_out p e.ready_queue i out, refl)
      | inr over ↦ rw (found, fail_or_retry, over) (refl, refl)
    ]
  ]

  mark_failed-queue :
      (env : Env) (e : Engine)
      → (filter p (mark_failed env i "cancelled by user" e).ready_queue ≡ filter p e.ready_queue)
        × ((mark_failed env i "cancelled by user" e).active_jobs ≡ remove i e.active_jobs)
  unfolding mark_failed
  mark_failed-queue env e =
      let failed = fail_or_retry-queue env.system (record e {
        active_jobs = remove i e.active_jobs;
        last_heartbeat = remove i e.last_heartbeat;
      }) in
      elim (Option-cases (get i e.active_jobs)) [
        | inl idle ↦ rw (idle, mark_failed) failed
        | inr (r, busy) ↦ rw (busy, mark_failed) failed
      ]

-- The workers of the running jobs of a list.
abbrev pub running_workers : List Job → List String
running_workers jobs =
    map (λ (j : Job). worker_name j.job_id)
      (filter (λ (j : Job). job_status_eq j.status JobStatus.running) jobs)

module _ {A : Type 0} (env : Env) (p : JobId → Bool) where
  -- What a part of the loop leaves of the queue, of the active jobs and of the workers.
  abbrev Leaves : (JobId → Bool) → (String → Bool) → Engine × Map A → Engine × Map A → Type 0
  Leaves ended killed (e, managed) (e', managed') =
      (filter p e'.ready_queue ≡ filter p e.ready_queue)
      × ((k : JobId) → get k e'.active_jobs ≡ (if ended k then none else get k e.active_jobs))
      × ((k : String) → get k managed' ≡ (if killed k then none else get k managed))

  cancel_job-Leaves :
      (i : JobId) (status : JobStatus) (e : Engine) (managed : Map A)
      → p i ≡ false
      → Leaves
          (λ k. is_active status && str_eq i k)
          (λ k. job_status_eq status JobStatus.running && str_eq (worker_name i) k)
          (e, managed)
          (cancel_job env (i, status) (e, managed))
  unfolding cancel_job
  cancel_job-Leaves i JobStatus.running e managed out =
      let (queue, active) = mark_failed-queue p i out env e in
      (
        queue,
        λ k. ap (get k) active ∙ get-remove k i e.active_jobs,
        λ k. get-remove k (worker_name i) managed,
      )
  cancel_job-Leaves i JobStatus.ready e managed out =
      let (queue, active) = mark_failed-queue p i out env e in
      (queue, λ k. ap (get k) active ∙ get-remove k i e.active_jobs, λ k. refl)
  cancel_job-Leaves i JobStatus.pending e managed out =
      let (queue, active) = mark_failed-queue p i out env e in
      (queue, λ k. ap (get k) active ∙ get-remove k i e.active_jobs, λ k. refl)
  cancel_job-Leaves i JobStatus.completed e managed out = (refl, λ k. refl, λ k. refl)
  cancel_job-Leaves i JobStatus.failed e managed out = (refl, λ k. refl, λ k. refl)
  cancel_job-Leaves i JobStatus.cancelled e managed out = (refl, λ k. refl, λ k. refl)

  cancel_jobs-Leaves :
      (jobs : List Job) (e : Engine) (managed : Map A)
      → ((k : JobId) → contains k (map job_key jobs) ≡ true → p k ≡ false)
      → Leaves
          (λ k. contains k (active_ids jobs))
          (λ k. contains k (running_workers jobs))
          (e, managed)
          (cancel_jobs env (jobs_to_cancel jobs) (e, managed))
  unfolding cancel_jobs contains
  cancel_jobs-Leaves [] e managed out = (refl, λ k. refl, λ k. refl)
  cancel_jobs-Leaves (j ∷ jobs) e managed out =
      let d = cancel_job env (j.job_id, j.status) (e, managed) in
      let (queue, active, workers) =
        cancel_job-Leaves j.job_id j.status e managed
          (out j.job_id (ground (arith, str_eq_refl j.job_id))) in
      let (queue', active', workers') =
        cancel_jobs-Leaves jobs d.0 d.1 (λ k c. out k (ground (arith, c))) in
      (
        queue' ∙ queue,
        λ k. ground (arith, active k, active' k),
        λ k. ground (arith, workers k, workers' k),
      )

-- A job id that is not of the run, or of no job.
abbrev pub is_other : RunId → RunStore → JobId → Bool
is_other run_id s k = not (is_some_and (λ (j : Job). str_eq j.run_id run_id) (get_job k s))

run_jobs-out :
    (run_id k : String) (s : RunStore)
    → IsWellFormed s
    → contains k (map job_key (list_run_jobs run_id s)) ≡ true
    → is_other run_id s k ≡ false
run_jobs-out run_id k s w c = ground (
  arith,
  c,
  contains-ids_where job_key (λ (j : Job). str_eq j.run_id run_id) k s.jobs w.jobs.0 w.jobs.1,
)

module _ {A : Type 0} (env : Env) (e : Engine) (managed : Map A) (run : Run) where
  retained-is_other :
      (run_id k : String)
      → IsWellFormed e.store
      → let jobs = jobs_to_cancel (list_run_jobs run_id e.store) in
        is_retained run_id (cancel_jobs env jobs (e, managed)).0.store k ≡ is_other run_id e.store k
  unfolding failed_once retry_job fail_job
  retained-is_other run_id k w =
      let now = get-jobs_cancelled env e managed run_id k w in
      elim (Option-cases (get k e.store.jobs)) [
        | inl gone ↦ ground (arith, gone, now)
        | inr (j, found) ↦ ground (arith, found, now)
      ]

  -- On a run that is pending or running and whose store is well formed, `cancel_run` is `Ok` and the
  -- run is cancelled. Of the jobs exactly the active ones of the run change: with attempts left they
  -- are ready again and not failed, else they are failed, in both cases with the error `cancelled by
  -- user`. The ready queue keeps, in order, exactly the ids that it held and that are not of the
  -- run's jobs. The run's active jobs are no longer among the active jobs of the engine, and the
  -- workers of its running jobs are gone; the other active jobs and workers stay.
  pub cancel_run_exact :
      (run_id : RunId)
      → IsWellFormed e.store
      → get_run run_id e.store ≡ some run
      → can_cancel run ≡ true
      → let ((e', managed'), ok) = cancel_run env run_id (e, managed) in
        (ok ≡ true)
        × (status_of run_id e'.store ≡ some RunStatus.cancelled)
        × ((k : JobId)
            → get_job k e'.store ≡ map_option (cancelled_job env.system run_id) (get_job k e.store))
        × (e'.ready_queue ≡ filter (is_other run_id e.store) e.ready_queue)
        × ((k : JobId)
            → get k e'.active_jobs ≡ (
                if is_some_and
                  (λ (j : Job). str_eq j.run_id run_id && is_active j.status)
                  (get_job k e.store)
                then none
                else get k e.active_jobs))
        × ((k : String)
            → get k managed' ≡ (
                if contains k (running_workers (list_run_jobs run_id e.store))
                then none
                else get k managed))
  unfolding drain modify_run
  cancel_run_exact run_id w found pending =
      let jobs = list_run_jobs run_id e.store in
      let e' = (cancel_jobs env (jobs_to_cancel jobs) (e, managed)).0 in
      let there =
        has_run-cancel_jobs env run_id (jobs_to_cancel jobs) e managed (ground (arith, found)) in
      let (queue, active, workers) =
        cancel_jobs-Leaves env (is_other run_id e.store) jobs e managed
          (λ k c. run_jobs-out run_id k e.store w c) in
      rw (cancel_run_eq env e managed run run_id found pending) (
        refl,
        status_of-modify_run run_id env.system e'.store there,
        λ k. get-jobs_cancelled env e managed run_id k w,
        filter-same _ _ e'.ready_queue (λ k. retained-is_other run_id k w) ∙ queue,
        λ k. ground (arith, active k, contains-active_ids run_id k e.store w),
        workers,
      )
