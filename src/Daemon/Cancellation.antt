-- ===== src/Daemon/Cancellation.antt =====
-- src/daemon.rs, `cancel_run`: what becomes of the run and of its jobs.
pub mod Exact
use zeptopm.Base.{
  String, ◌≡◌, refl, sym, ap, ◌∙◌, arith, Bool, true, ◌&&◌, if◌then◌else◌, Option, some, List, [],
  ◌∷◌, map, filter, all, Map, contains_key, get, remove, str_eq, contains, map_option, is_some_and,
  Bool-cases, Option-cases, inl, inr, get-modify, contains_key-insert, str_eq_refl, subst,
  contains-ids_where, str_eq→eq, values, filter-filter,
}
use zeptopm.Types.{RunId, JobId, Time, RunStatus, JobStatus, Run, Job}
use zeptopm.Store.{RunStore, update_run, get_run, get_job, modify_run, modify_job, list_run_jobs}
use zeptopm.Store.Laws.{IsWellFormed, job_key}
use zeptopm.Scheduler.{is_active, settle, check_run_completion}
use zeptopm.Scheduler.Completion.{check_run_completion_frame}
use zeptopm.Engine.{Engine, Env, mark_failed, fail_or_retry, retry_job, fail_job, can_retry}
use zeptopm.Daemon.{
  set_cancelled, is_retained, drain, cancel_job, cancel_jobs, jobs_to_cancel, finish_cancel,
  can_cancel, cancel_run,
}

-- A job after `mark_failed`.
unfoldable pub failed_once : Time → Job → Job
unfolding retry_job fail_job
failed_once now j =
    if can_retry j then retry_job "cancelled by user" j else fail_job "cancelled by user" now j

failed_once_twice : (now : Time) (j : Job) → failed_once now (failed_once now j) ≡ failed_once now j
unfolding failed_once retry_job fail_job
failed_once_twice now j = ground arith

get-fail_or_retry :
    (now : Time) (i k : JobId) (e : Engine)
    → get k (fail_or_retry now i "cancelled by user" e).store.jobs ≡ (
        if str_eq i k
        then map_option (failed_once now) (get k e.store.jobs)
        else get k e.store.jobs)
unfolding fail_or_retry modify_job failed_once
get-fail_or_retry now i k e = elim (Option-cases (get i e.store.jobs)) [
  | inl gone ↦ ground (arith, gone, str_eq→eq i k)
  | inr (j, found) ↦ elim (Bool-cases (can_retry j)) [
    | inl again ↦ ground (
      arith,
      found,
      again,
      str_eq→eq i k,
      get-modify k i (retry_job "cancelled by user") e.store.jobs,
    )
    | inr over ↦ ground (
      arith,
      found,
      over,
      str_eq→eq i k,
      get-modify k i (fail_job "cancelled by user" now) e.store.jobs,
    )
  ]
]

get-mark_failed :
    (env : Env) (i k : JobId) (e : Engine)
    → get k (mark_failed env i "cancelled by user" e).store.jobs ≡ (
        if str_eq i k
        then map_option (failed_once env.system) (get k e.store.jobs)
        else get k e.store.jobs)
unfolding mark_failed
get-mark_failed env i k e =
    let e' = record e {
      active_jobs = remove i e.active_jobs;
      last_heartbeat = remove i e.last_heartbeat;
    } in
    let failed = get-fail_or_retry env.system i k e' in
    elim (Option-cases (get i e.active_jobs)) [
      | inl idle ↦ rw (idle, mark_failed) failed
      | inr (r, busy) ↦
          rw (busy, mark_failed)
            (ap (get k)
                (check_run_completion_frame r env.system
                  (fail_or_retry env.system i "cancelled by user" e').store).0
              ∙ failed)
    ]

-- The jobs of the collected list that are active.
abbrev pub active_ids : List Job → List JobId
active_ids jobs = map job_key (filter (λ (j : Job). is_active j.status) jobs)

module _ {A : Type 0} (env : Env) where
  get-cancel_job :
      (k i : JobId) (status : JobStatus) (e : Engine) (managed : Map A)
      → get k (cancel_job env (i, status) (e, managed)).0.store.jobs ≡ (
          if is_active status && str_eq i k
          then map_option (failed_once env.system) (get k e.store.jobs)
          else get k e.store.jobs)
  unfolding cancel_job
  get-cancel_job k i JobStatus.pending e managed = get-mark_failed env i k e
  get-cancel_job k i JobStatus.ready e managed = get-mark_failed env i k e
  get-cancel_job k i JobStatus.running e managed = get-mark_failed env i k e
  get-cancel_job k i JobStatus.completed e managed = refl
  get-cancel_job k i JobStatus.failed e managed = refl
  get-cancel_job k i JobStatus.cancelled e managed = refl

  -- What is failed twice is failed once.
  get-cancel_jobs :
      (k : JobId) (jobs : List Job) (e : Engine) (managed : Map A)
      → get k (cancel_jobs env (jobs_to_cancel jobs) (e, managed)).0.store.jobs ≡ (
          if contains k (active_ids jobs)
          then map_option (failed_once env.system) (get k e.store.jobs)
          else get k e.store.jobs)
  unfolding cancel_jobs contains
  get-cancel_jobs k [] e managed = refl
  get-cancel_jobs k (j ∷ jobs) e managed =
      let d = cancel_job env (j.job_id, j.status) (e, managed) in
      let here = get-cancel_job k j.job_id j.status e managed in
      let rest = get-cancel_jobs k jobs d.0 d.1 in
      elim (Option-cases (get k e.store.jobs)) [
        | inl gone ↦ ground (arith, here, rest, gone)
        | inr (w, found) ↦ ground (arith, here, rest, found, failed_once_twice env.system w)
      ]

pub contains-active_ids :
    (run_id k : String) (s : RunStore)
    → IsWellFormed s
    → contains k (active_ids (list_run_jobs run_id s))
      ≡ is_some_and (λ (j : Job). str_eq j.run_id run_id && is_active j.status) (get k s.jobs)
contains-active_ids run_id k s w =
    rw
      (filter-filter (λ (j : Job). is_active j.status) (λ (j : Job). str_eq j.run_id run_id)
        (values s.jobs))
      (contains-ids_where job_key _ k s.jobs w.jobs.0 w.jobs.1)

-- What `cancel_run` makes of a job: an active job of the run is failed, as after a failed attempt.
abbrev pub cancelled_job : Time → RunId → Job → Job
cancelled_job now run_id j =
    if str_eq j.run_id run_id && is_active j.status then failed_once now j else j

pub get-jobs_cancelled :
    {A : Type 0} (env : Env) (e : Engine) (managed : Map A) (run_id k : String)
    → IsWellFormed e.store
    → get k
        (cancel_jobs env (jobs_to_cancel (list_run_jobs run_id e.store)) (e, managed)).0.store.jobs
      ≡ map_option (cancelled_job env.system run_id) (get k e.store.jobs)
get-jobs_cancelled env e managed run_id k w =
    let all_jobs = get-cancel_jobs env k (list_run_jobs run_id e.store) e managed in
    let active = contains-active_ids run_id k e.store w in
    elim (Option-cases (get k e.store.jobs)) [
      | inl gone ↦ ground (arith, all_jobs, active, gone)
      | inr (j, found) ↦ ground (arith, all_jobs, active, found)
    ]

has_run-check :
    (r q : RunId) (now : Time) (s : RunStore)
    → contains_key r s.runs ≡ true
    → contains_key r (check_run_completion q now s).0.runs ≡ true
unfolding check_run_completion update_run
has_run-check r q now s h = elim (Option-cases (get_run q s)) [
  | inl gone ↦ ground (arith, gone, h)
  | inr (run, found) ↦ ground (
    arith,
    found,
    h,
    contains_key-insert r run.run_id (settle (list_run_jobs q s) now run) s.runs,
  )
]

pub has_run-fail_or_retry :
    (now : Time) (i : JobId) (e : Engine)
    → (fail_or_retry now i "cancelled by user" e).store.runs ≡ e.store.runs
unfolding fail_or_retry modify_job
has_run-fail_or_retry now i e = elim (Option-cases (get_job i e.store)) [
  | inl gone ↦ ground (arith, gone)
  | inr (j, found) ↦ ground (arith, found)
]

has_run-mark_failed :
    (env : Env) (i r : String) (e : Engine)
    → contains_key r e.store.runs ≡ true
    → contains_key r (mark_failed env i "cancelled by user" e).store.runs ≡ true
unfolding mark_failed
has_run-mark_failed env i r e h =
    let e' = record e {
      active_jobs = remove i e.active_jobs;
      last_heartbeat = remove i e.last_heartbeat;
    } in
    let same = has_run-fail_or_retry env.system i e' in
    let there = subst (λ (m : Map Run). contains_key r m ≡ true) (sym same) h in
    elim (Option-cases (get i e.active_jobs)) [
      | inl idle ↦ rw (idle, mark_failed) there
      | inr (q, busy) ↦ rw (busy, mark_failed) (has_run-check r q env.system _ there)
    ]

module _ {A : Type 0} (env : Env) (r : RunId) where
  has_run-cancel_job :
      (i : JobId) (status : JobStatus) (e : Engine) (managed : Map A)
      → contains_key r e.store.runs ≡ true
      → contains_key r (cancel_job env (i, status) (e, managed)).0.store.runs ≡ true
  unfolding cancel_job
  has_run-cancel_job i JobStatus.pending e managed h = has_run-mark_failed env i r e h
  has_run-cancel_job i JobStatus.ready e managed h = has_run-mark_failed env i r e h
  has_run-cancel_job i JobStatus.running e managed h = has_run-mark_failed env i r e h
  has_run-cancel_job i JobStatus.completed e managed h = h
  has_run-cancel_job i JobStatus.failed e managed h = h
  has_run-cancel_job i JobStatus.cancelled e managed h = h

  pub has_run-cancel_jobs :
      (ps : List (JobId × JobStatus)) (e : Engine) (managed : Map A)
      → contains_key r e.store.runs ≡ true
      → contains_key r (cancel_jobs env ps (e, managed)).0.store.runs ≡ true
  unfolding cancel_jobs
  has_run-cancel_jobs [] e managed h = h
  has_run-cancel_jobs ((i, status) ∷ ps) e managed h =
      let d = cancel_job env (i, status) (e, managed) in
      has_run-cancel_jobs ps d.0 d.1 (has_run-cancel_job i status e managed h)

-- The status of a run that is there.
abbrev pub status_of : RunId → RunStore → Option RunStatus
status_of run_id s = map_option (λ (r : Run). r.status) (get_run run_id s)

pub status_of-modify_run :
    (run_id : RunId) (now : Time) (s : RunStore)
    → contains_key run_id s.runs ≡ true
    → status_of run_id (modify_run run_id (set_cancelled now) s) ≡ some RunStatus.cancelled
unfolding modify_run
status_of-modify_run run_id now s h =
    ground (arith, h, str_eq_refl run_id, get-modify run_id run_id (set_cancelled now) s.runs)

module _ {A : Type 0} (env : Env) (e : Engine) (managed : Map A) (run : Run) where
  pub cancel_run_eq :
      (run_id : RunId)
      → get_run run_id e.store ≡ some run
      → can_cancel run ≡ true
      → cancel_run env run_id (e, managed) ≡ (
        finish_cancel env run_id
            (cancel_jobs env (jobs_to_cancel (list_run_jobs run_id e.store)) (e, managed)),
        true,
      )
  unfolding cancel_run
  cancel_run_eq run_id found pending = rw (found, cancel_run, pending) refl
