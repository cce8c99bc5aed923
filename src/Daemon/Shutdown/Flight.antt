-- ===== src/Daemon/Shutdown/Flight.antt =====
-- src/daemon.rs, `run` after its loop: which runs are in flight.
use zeptopm.Base.{
  ◌≡◌, refl, sym, arith, true, false, if◌then◌else◌, List, [], ◌∷◌, Map, get, remove, str_eq,
  contains, is_some_and, Bool-cases, Option-cases, inl, inr, get-insert, get-modify, str_eq→eq,
  str_eq_refl, subst,
}
use zeptopm.Types.{RunId, JobId, Time, JobStatus, Run}
use zeptopm.Store.{RunStore, get_run, list_run_jobs, update_run, modify_run}
use zeptopm.Scheduler.{settle, check_run_completion}
use zeptopm.Engine.{Engine, Env, mark_failed}
use zeptopm.Agent.{stop}
use zeptopm.Daemon.{
  can_cancel, cancel_job, cancel_jobs, cancel_run, drain, jobs_to_cancel, set_cancelled,
}
use zeptopm.Daemon.Cancellation.{cancel_run_eq, has_run-fail_or_retry}
use zeptopm.Daemon.World.{World, InternalAgent, send, emit}
use zeptopm.Daemon.Shutdown.{cancel_and_persist, cancel_runs, stop_agents, is_in_flight}

module _ (r : RunId) where
  quiet-check :
      (q : RunId) (now : Time) (s : RunStore)
      → is_in_flight r s ≡ false
      → is_in_flight r (check_run_completion q now s).0 ≡ false
  unfolding check_run_completion update_run
  quiet-check q now s h = elim (Option-cases (get q s.runs)) [
    | inl gone ↦ ground (arith, gone, h)
    | inr (run, found) ↦
        ground
          (arith, found, h, get-insert r run.run_id (settle (list_run_jobs q s) now run) s.runs)
  ]

  quiet-mark_failed :
      (env : Env) (i : JobId) (e : Engine)
      → is_in_flight r e.store ≡ false
      → is_in_flight r (mark_failed env i "cancelled by user" e).store ≡ false
  unfolding mark_failed
  quiet-mark_failed env i e h =
      let e' = record e {
        active_jobs = remove i e.active_jobs;
        last_heartbeat = remove i e.last_heartbeat;
      } in
      let same = has_run-fail_or_retry env.system i e' in
      let there = subst (λ (m : Map Run). is_some_and can_cancel (get r m) ≡ false) (sym same) h in
      elim (Option-cases (get i e.active_jobs)) [
        | inl idle ↦ rw (idle, mark_failed) there
        | inr (q, busy) ↦ rw (busy, mark_failed) (quiet-check q env.system _ there)
      ]

module _ {A : Type 0} (env : Env) (r : RunId) where
  quiet-cancel_job :
      (i : JobId) (status : JobStatus) (e : Engine) (managed : Map A)
      → is_in_flight r e.store ≡ false
      → is_in_flight r (cancel_job env (i, status) (e, managed)).0.store ≡ false
  unfolding cancel_job
  quiet-cancel_job i JobStatus.pending e managed h = quiet-mark_failed r env i e h
  quiet-cancel_job i JobStatus.ready e managed h = quiet-mark_failed r env i e h
  quiet-cancel_job i JobStatus.running e managed h = quiet-mark_failed r env i e h
  quiet-cancel_job i JobStatus.completed e managed h = h
  quiet-cancel_job i JobStatus.failed e managed h = h
  quiet-cancel_job i JobStatus.cancelled e managed h = h

  quiet-cancel_jobs :
      (ps : List (JobId × JobStatus)) (e : Engine) (managed : Map A)
      → is_in_flight r e.store ≡ false
      → is_in_flight r (cancel_jobs env ps (e, managed)).0.store ≡ false
  unfolding cancel_jobs
  quiet-cancel_jobs [] e managed h = h
  quiet-cancel_jobs ((i, status) ∷ ps) e managed h =
      let d = cancel_job env (i, status) (e, managed) in
      quiet-cancel_jobs ps d.0 d.1 (quiet-cancel_job i status e managed h)

-- Whatever has become of the run, it is not in flight once it is set to cancelled.
quiet-set_cancelled :
    (r run_id : RunId) (now : Time) (s : RunStore)
    → is_in_flight r (modify_run run_id (set_cancelled now) s)
      ≡ (if str_eq run_id r then false else is_in_flight r s)
unfolding modify_run
quiet-set_cancelled r run_id now s = ground (arith, get-modify r run_id (set_cancelled now) s.runs)

module _ {A : Type 0} (env : Env) (r : RunId) where
  -- `cancel_run` puts no run in flight.
  quiet-cancel_run :
      (run_id : RunId) (e : Engine) (managed : Map A)
      → is_in_flight r e.store ≡ false
      → is_in_flight r (cancel_run env run_id (e, managed)).0.0.store ≡ false
  unfolding cancel_run drain
  quiet-cancel_run run_id e managed h = elim (Option-cases (get_run run_id e.store)) [
    | inl gone ↦ rw (gone, cancel_run) h
    | inr (run, found) ↦ elim (Bool-cases (can_cancel run)) [
      | inl pending ↦
          let d = cancel_jobs env (jobs_to_cancel (list_run_jobs run_id e.store)) (e, managed) in
          rw (cancel_run_eq env e managed run run_id found pending) (
            ground (
              arith,
              quiet-set_cancelled r run_id env.system d.0.store,
              quiet-cancel_jobs env r (jobs_to_cancel (list_run_jobs run_id e.store)) e managed h,
            ))
      | inr over ↦ rw (found, cancel_run, over) h
    ]
  ]

-- After `cancel_run` its own run is not in flight.
cancel_run_own :
    {A : Type 0} (env : Env) (run_id : RunId) (e : Engine) (managed : Map A)
    → is_in_flight run_id (cancel_run env run_id (e, managed)).0.0.store ≡ false
unfolding cancel_run drain
cancel_run_own env run_id e managed = elim (Option-cases (get_run run_id e.store)) [
  | inl gone ↦ rw (gone, cancel_run, gone) refl
  | inr (run, found) ↦ elim (Bool-cases (can_cancel run)) [
    | inl pending ↦
        let d = cancel_jobs env (jobs_to_cancel (list_run_jobs run_id e.store)) (e, managed) in
        rw (cancel_run_eq env e managed run run_id found pending) (
          ground
            (arith, str_eq_refl run_id, quiet-set_cancelled run_id run_id env.system d.0.store))
    | inr over ↦ rw (found, cancel_run, over, found, over) refl
  ]
]

module _ (env : Env) (r : RunId) where
  pub quiet-cancel_runs :
      (ids : List RunId) (w : World)
      → is_in_flight r w.engine.store ≡ false
      → is_in_flight r (cancel_runs env ids w).engine.store ≡ false
  unfolding cancel_runs cancel_and_persist
  quiet-cancel_runs [] w h = h
  quiet-cancel_runs (run_id ∷ ids) w h =
      quiet-cancel_runs ids (cancel_and_persist env run_id w)
        (quiet-cancel_run env r run_id w.engine w.managed h)

  pub listed-cancel_runs :
      (ids : List RunId) (w : World)
      → contains r ids ≡ true
      → is_in_flight r (cancel_runs env ids w).engine.store ≡ false
  unfolding cancel_runs cancel_and_persist contains
  listed-cancel_runs [] w h = cc
  listed-cancel_runs (run_id ∷ ids) w h =
      let w' = cancel_and_persist env run_id w in
      elim (Bool-cases (str_eq run_id r)) [
        | inl own ↦ quiet-cancel_runs ids w' (
            subst (λ (k : RunId). is_in_flight k w'.engine.store ≡ false) (str_eq→eq run_id r own)
              (cancel_run_own env run_id w.engine w.managed))
        | inr other ↦ listed-cancel_runs ids w' (ground (arith, other))
      ]

  pub stop_agents-engine :
      (managed : Map InternalAgent) (w : World) → (stop_agents managed w).engine ≡ w.engine
  unfolding stop_agents
  stop_agents-engine [] w = refl
  stop_agents-engine ((name, internal) ∷ managed) w =
      stop_agents-engine managed (emit (send name stop) w)
