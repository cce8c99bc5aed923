-- ===== src/Daemon/Handlers/Turns.antt =====
-- src/daemon.rs, the loop of `run`: whatever comes from the workers, the clients and the clock, in
-- any order, the engine stays bounded.
use zeptopm.Base.{
  ℕ, ◌-◌, ◌*◌, String, ◌≡◌, refl, sym, subst, Option, none, some, List, [], ◌∷◌, Map, Bool-cases,
  Option-cases, inl, inr, keys, ltb,
}
use zeptopm.Types.{RunId, JobId, JobStatus}
use zeptopm.Store.{get_run, list_run_jobs}
use zeptopm.Store.Laws.{modify_run-IsWellFormed}
use zeptopm.Store.Removal.{remove_run-IsWellFormed}
use zeptopm.Engine.{Engine, Env, stale_jobs}
use zeptopm.Engine.Calls
use zeptopm.Engine.Bounds.{
  IsBounded, step-IsBounded, keeps, mark_failed-IsBounded, record_heartbeat-IsBounded,
}
use zeptopm.Json.{Json}
use zeptopm.Daemon.{
  can_cancel, cancel_job, cancel_jobs, cancel_run, drain, jobs_to_cancel, set_cancelled,
}
use zeptopm.Daemon.World.{InternalAgent, World, Host}
use zeptopm.Daemon.Workers.{stop_worker}
use zeptopm.Daemon.Workers.Spawning.{stop_worker-engine}
use zeptopm.Daemon.Handlers.{on_event, on_submit, on_cancel}
use zeptopm.Daemon.Handlers.Poll.{
  refresh, is_waiting, fail_stale, poll_jobs, remove_runs, cleanup, expired_runs,
}
use zeptopm.Daemon.Handlers.Completion.{Bounded, BoundedIf, settle-Bounded}
use zeptopm.Daemon.Handlers.Bounds.{event-Bounded, fail_job-Bounded}

-- What the loop handles.
pub data Turn : Type 0 where
  worker_event : Json → Turn
  submit : String → Turn
  cancel : RunId → Turn
  poll_tick : Turn
  cleanup_tick : Turn

unfoldable pub turn : Env → Host → Turn → World → Option World
turn env host (worker_event event) w = on_event env host event w
turn env host (submit task) w = some (on_submit env host task w).0
turn env host (cancel run_id) w = some (on_cancel env run_id w).0
turn env host poll_tick w = some (poll_jobs env host w)
turn env host cleanup_tick w = some (cleanup env w)

-- A panic ends the loop.
unfoldable pub turns : List (Env × (Host × Turn)) → World → Option World
turns [] w = some w
turns ((env, (host, t)) ∷ ts) w = elim (turn env host t w) [ none ↦ none | some w' ↦ turns ts w' ]

submit-Bounded :
    {limit : ℕ} (env : Env) (host : Host) (task : String) (w : World)
    → Bounded limit w
    → Bounded limit (on_submit env host task w).0
unfolding on_submit Calls.step
submit-Bounded env host task w h =
    settle-Bounded env host _ _ (step-IsBounded (env, Calls.submit task) (w.engine, w.counter) h)

cancel_job-IsBounded :
    {limit : ℕ} (env : Env) (p : JobId × JobStatus) (d : Engine × Map InternalAgent)
    → IsBounded limit d.0
    → IsBounded limit (cancel_job env p d).0
unfolding cancel_job
cancel_job-IsBounded env (k, JobStatus.running) (e, managed) h = mark_failed-IsBounded env k _ h
cancel_job-IsBounded env (k, JobStatus.ready) (e, managed) h = mark_failed-IsBounded env k _ h
cancel_job-IsBounded env (k, JobStatus.pending) (e, managed) h = mark_failed-IsBounded env k _ h
cancel_job-IsBounded env (k, JobStatus.completed) (e, managed) h = h
cancel_job-IsBounded env (k, JobStatus.failed) (e, managed) h = h
cancel_job-IsBounded env (k, JobStatus.cancelled) (e, managed) h = h

cancel_jobs-IsBounded :
    {limit : ℕ} (env : Env) (ps : List (JobId × JobStatus)) (d : Engine × Map InternalAgent)
    → IsBounded limit d.0
    → IsBounded limit (cancel_jobs env ps d).0
unfolding cancel_jobs
cancel_jobs-IsBounded env [] d h = h
cancel_jobs-IsBounded env (p ∷ ps) d h =
    cancel_jobs-IsBounded env ps (cancel_job env p d) (cancel_job-IsBounded env p d h)

cancel_run-IsBounded :
    {limit : ℕ} (env : Env) (run_id : RunId) (d : Engine × Map InternalAgent)
    → IsBounded limit d.0
    → IsBounded limit (cancel_run env run_id d).0.0
unfolding cancel_run drain
cancel_run-IsBounded env run_id (e, managed) h = elim (Option-cases (get_run run_id e.store)) [
  | inl gone ↦ rw (cancel_run, gone) h
  | inr (run, found) ↦ elim (Bool-cases (can_cancel run)) [
    | inr over ↦ rw (cancel_run, found, over) h
    | inl live ↦
        let h' =
          cancel_jobs-IsBounded env (jobs_to_cancel (list_run_jobs run_id e.store)) (e, managed)
            h in
        rw (cancel_run, found, live)
          (keeps h' _
            (modify_run-IsWellFormed h'.store run_id (set_cancelled env.system) (λ r. refl)) refl
            refl refl)
  ]
]

cancel-Bounded :
    {limit : ℕ} (env : Env) (run_id : RunId) (w : World)
    → Bounded limit w
    → Bounded limit (on_cancel env run_id w).0
unfolding on_cancel
cancel-Bounded env run_id w h =
    let h' = cancel_run-IsBounded env run_id (w.engine, w.managed) h in
    elim (Bool-cases (cancel_run env run_id (w.engine, w.managed)).1) [
      | inl e ↦ rw (on_cancel, e) h'
      | inr e ↦ rw (on_cancel, e) h'
    ]

refresh-Bounded :
    {limit : ℕ} (env : Env) (ks : List JobId) (w : World)
    → Bounded limit w
    → Bounded limit (refresh env ks w)
unfolding refresh
refresh-Bounded env [] w h = h
refresh-Bounded env (k ∷ ks) w h = elim (Bool-cases (is_waiting w k)) [
  | inl e ↦ rw (e, refresh) (refresh-Bounded env ks _ (record_heartbeat-IsBounded h env k))
  | inr e ↦ rw (e, refresh) (refresh-Bounded env ks w h)
]

fail_stale-Bounded :
    {limit : ℕ} (env : Env) (host : Host) (ks : List JobId) (w : World)
    → Bounded limit w
    → Bounded limit (fail_stale env host ks w)
unfolding fail_stale
fail_stale-Bounded env host [] w h = h
fail_stale-Bounded env host (k ∷ ks) w h = fail_stale-Bounded env host ks _ (
    settle-Bounded env host _ _ (
      fail_job-Bounded env host k _ (stop_worker k w)
        (subst (IsBounded _) (sym (stop_worker-engine k w)) h)))

remove_runs-Bounded :
    {limit : ℕ} (rs : List RunId) (w : World) → Bounded limit w → Bounded limit (remove_runs rs w)
unfolding remove_runs
remove_runs-Bounded [] w h = h
remove_runs-Bounded (r ∷ rs) w h =
    remove_runs-Bounded rs _
      (keeps h _ (remove_run-IsWellFormed r w.engine.store h.store) refl refl refl)

cleanup-Bounded :
    {limit : ℕ} (env : Env) (w : World) → Bounded limit w → Bounded limit (cleanup env w)
unfolding cleanup
cleanup-Bounded env w h = elim (Bool-cases (ltb 0 w.config.daemon.run_ttl_days)) [
  | inl e ↦
      rw (e, cleanup)
        (remove_runs-Bounded (expired_runs (env.system - w.config.daemon.run_ttl_days * 86400000) w)
          w h)
  | inr e ↦ rw (e, cleanup) h
]

turn-Bounded :
    {limit : ℕ} (env : Env) (host : Host) (t : Turn) (w : World)
    → Bounded limit w
    → BoundedIf limit (turn env host t w)
unfolding turn poll_jobs
turn-Bounded env host (worker_event event) w h = event-Bounded env host event w h
turn-Bounded env host (submit task) w h = submit-Bounded env host task w h
turn-Bounded env host (cancel run_id) w h = cancel-Bounded env run_id w h
turn-Bounded env host poll_tick w h =
    let w' = refresh env (keys w.engine.active_jobs) w in
    fail_stale-Bounded env host (stale_jobs env.instant 120000 w'.engine) w'
      (refresh-Bounded env (keys w.engine.active_jobs) w h)
turn-Bounded env host cleanup_tick w h = cleanup-Bounded env w h

turns-BoundedIf :
    {limit : ℕ} (ts : List (Env × (Host × Turn))) (w : World)
    → Bounded limit w
    → BoundedIf limit (turns ts w)
unfolding turns
turns-BoundedIf [] w h = h
turns-BoundedIf ((env, (host, t)) ∷ ts) w h = elim (Option-cases (turn env host t w)) [
  | inl panic ↦ rw (turns, panic) tt
  | inr (w', next) ↦
      rw (turns, next)
        (turns-BoundedIf ts w' (subst (BoundedIf _) next (turn-Bounded env host t w h)))
]

-- The daemon with a bounded engine, through any events of workers, submitted and cancelled runs, and
-- ticks of the poll and of the clean-up, in any order and with any content, as long as no text makes
-- it panic: the active jobs stay within the limit that the engine was made with, no job is active
-- twice, only active jobs have a heartbeat, and the store stays well-formed.
pub turns-IsBounded :
    (limit : ℕ) (ts : List (Env × (Host × Turn))) (w w' : World)
    → IsBounded limit w.engine
    → turns ts w ≡ some w'
    → IsBounded limit w'.engine
turns-IsBounded limit ts w w' h e = subst (BoundedIf limit) e (turns-BoundedIf ts w h)
