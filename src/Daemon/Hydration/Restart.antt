-- ===== src/Daemon/Hydration/Restart.antt =====
-- src/daemon.rs, the start of `run`: after a restart no job is running and the queue holds the ready
-- jobs.
use zeptopm.Base.{
  ℕ, contains-snoc, contains_key-insert, str_eq_refl, ◌≡◌, refl, arith, Bool, true, false,
  if◌then◌else◌, List, [], ◌∷◌, map, get, contains, contains_key, is_some_and, str_eq, str_eq→eq,
  get-insert, IsNodup,
}
use zeptopm.Types.{JobId, Time, JobStatus, Run, Job, Artifact, Channel, job_status_eq}
use zeptopm.Store.{create_run, create_job, create_artifact, create_channel}
use zeptopm.Store
use zeptopm.Store.Laws.{job_key}
use zeptopm.Engine.{Engine, new, can_retry}
use zeptopm.Daemon.Hydration.{
  lost_job, put_job, idle_channel, hydrate_job, hydrate_jobs, hydrate_runs, hydrate_artifacts,
  hydrate_channels, hydrate,
}

abbrev is_status : JobStatus → Job → Bool
is_status status j = job_status_eq j.status status

-- No job is running, and the queue holds exactly the ready jobs.
pub record IsRestored (e : Engine) : Type 0 where
  pub none_running :
      (k : JobId) → is_some_and (is_status JobStatus.running) (get k e.store.jobs) ≡ false
  pub queued :
      (k : JobId)
      → contains k e.ready_queue ≡ is_some_and (is_status JobStatus.ready) (get k e.store.jobs)

put_job-IsRestored :
    (b : Bool) (j : Job) (e : Engine)
    → is_status JobStatus.running j ≡ false
    → is_status JobStatus.ready j ≡ b
    → contains_key j.job_id e.store.jobs ≡ false
    → IsRestored e
    → IsRestored (put_job b j e)
unfolding create_job
put_job-IsRestored b j e idle ready fresh h = record {
  none_running = λ k. ground (arith, h.none_running k, get-insert k j.job_id j e.store.jobs, idle);
  queued = λ k. ground (
    arith,
    h.queued k,
    get-insert k j.job_id j e.store.jobs,
    contains-snoc k e.ready_queue j.job_id,
    str_eq→eq j.job_id k,
    ready,
    fresh,
  );
}

-- None of the jobs is in the store yet.
abbrev NoneStored : List Job → Engine → Type 0
NoneStored jobs e =
    (k : JobId) → contains k (map job_key jobs) ≡ true → contains_key k e.store.jobs ≡ false

hydrate_job-IsRestored :
    (now : Time) (j : Job) (status : JobStatus) (e : Engine)
    → j.status ≡ status
    → contains_key j.job_id e.store.jobs ≡ false
    → IsRestored e
    → IsRestored (hydrate_job now j status e)
unfolding hydrate_job lost_job
hydrate_job-IsRestored now j JobStatus.running e s fresh h =
    put_job-IsRestored (can_retry j) (lost_job now j) e (ground arith) (ground arith)
      (ground (arith, fresh)) h
hydrate_job-IsRestored now j JobStatus.ready e s fresh h =
    put_job-IsRestored true j e (ground (arith, s)) (ground (arith, s)) fresh h
hydrate_job-IsRestored now j JobStatus.pending e s fresh h =
    put_job-IsRestored false j e (ground (arith, s)) (ground (arith, s)) fresh h
hydrate_job-IsRestored now j JobStatus.completed e s fresh h =
    put_job-IsRestored false j e (ground (arith, s)) (ground (arith, s)) fresh h
hydrate_job-IsRestored now j JobStatus.failed e s fresh h =
    put_job-IsRestored false j e (ground (arith, s)) (ground (arith, s)) fresh h
hydrate_job-IsRestored now j JobStatus.cancelled e s fresh h =
    put_job-IsRestored false j e (ground (arith, s)) (ground (arith, s)) fresh h

put_job-keys :
    (b : Bool) (j : Job) (k : JobId) (e : Engine)
    → contains_key k (put_job b j e).store.jobs
      ≡ (if str_eq j.job_id k then true else contains_key k e.store.jobs)
unfolding create_job
put_job-keys b j k e = contains_key-insert k j.job_id j e.store.jobs

hydrate_job-keys :
    (now : Time) (j : Job) (status : JobStatus) (k : JobId) (e : Engine)
    → contains_key k (hydrate_job now j status e).store.jobs
      ≡ (if str_eq j.job_id k then true else contains_key k e.store.jobs)
unfolding hydrate_job lost_job
hydrate_job-keys now j JobStatus.running k e =
    ground (arith, put_job-keys (can_retry j) (lost_job now j) k e)
hydrate_job-keys now j JobStatus.ready k e = put_job-keys true j k e
hydrate_job-keys now j JobStatus.pending k e = put_job-keys false j k e
hydrate_job-keys now j JobStatus.completed k e = put_job-keys false j k e
hydrate_job-keys now j JobStatus.failed k e = put_job-keys false j k e
hydrate_job-keys now j JobStatus.cancelled k e = put_job-keys false j k e

hydrate_jobs-IsRestored :
    (now : Time) (jobs : List Job) (e : Engine)
    → IsNodup (map job_key jobs)
    → NoneStored jobs e
    → IsRestored e
    → IsRestored (hydrate_jobs now jobs e)
unfolding hydrate_jobs contains
hydrate_jobs-IsRestored now [] e d f h = h
hydrate_jobs-IsRestored now (j ∷ jobs) e d f h =
    hydrate_jobs-IsRestored now jobs (hydrate_job now j j.status e) d.1
      (λ k c.
        ground (arith, hydrate_job-keys now j j.status k e, f k, c, d.0, str_eq→eq j.job_id k))
      (hydrate_job-IsRestored now j j.status e refl
        (f j.job_id (ground (arith, str_eq_refl j.job_id))) h)

hydrate_runs-IsRestored :
    (runs : List Run) (jobs : List Job) (e : Engine)
    → NoneStored jobs e
    → IsRestored e
    → NoneStored jobs (hydrate_runs runs e) × IsRestored (hydrate_runs runs e)
unfolding hydrate_runs create_run
hydrate_runs-IsRestored [] jobs e f h = (f, h)
hydrate_runs-IsRestored (run ∷ runs) jobs e f h =
    hydrate_runs-IsRestored runs jobs (record e { store = create_run run e.store }) f
      (record { none_running = h.none_running; queued = h.queued })

hydrate_artifacts-IsRestored :
    (artifacts : List Artifact) (e : Engine)
    → IsRestored e
    → IsRestored (hydrate_artifacts artifacts e)
unfolding hydrate_artifacts create_artifact
hydrate_artifacts-IsRestored [] e h = h
hydrate_artifacts-IsRestored (a ∷ artifacts) e h =
    hydrate_artifacts-IsRestored artifacts (record e { store = create_artifact a e.store })
      (record { none_running = h.none_running; queued = h.queued })

hydrate_channels-IsRestored :
    (chs : List Channel) (e : Engine) → IsRestored e → IsRestored (hydrate_channels chs e)
unfolding hydrate_channels create_channel
hydrate_channels-IsRestored [] e h = h
hydrate_channels-IsRestored (ch ∷ chs) e h =
    hydrate_channels-IsRestored chs (record e { store = create_channel (idle_channel ch) e.store })
      (record { none_running = h.none_running; queued = h.queued })

-- When a new engine is filled with persisted runs, jobs, artifacts and channels, of which no two jobs
-- have the same id, no job of it is running and its ready queue holds exactly the ids of its ready
-- jobs.
pub hydrate-IsRestored :
    (limit : ℕ) (now : Time) (runs : List Run) (jobs : List Job) (artifacts : List Artifact)
    (channels : List Channel)
    → IsNodup (map job_key jobs)
    → IsRestored (hydrate now runs jobs artifacts channels (new limit))
unfolding hydrate new Store.new get contains
hydrate-IsRestored limit now runs jobs artifacts channels d =
    let (f, h) =
      hydrate_runs-IsRestored runs jobs (new limit) (λ k c. refl)
        (record { none_running = λ k. refl; queued = λ k. refl }) in
    hydrate_channels-IsRestored channels _
      (hydrate_artifacts-IsRestored artifacts _ (hydrate_jobs-IsRestored now jobs _ d f h))
