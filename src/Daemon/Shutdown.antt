-- ===== src/Daemon/Shutdown.antt =====
-- src/daemon.rs, `run` after its loop: the runs in flight are cancelled and written down, and the
-- agents are told to stop.
pub mod Flight
pub mod Quiet
use zeptopm.Base.{
  String, ◌≡◌, refl, sym, ap, ◌∙◌, arith, Bool, true, false, not, ◌&&◌, ◌||◌, if◌then◌else◌, Option,
  none, some, List, [], ◌∷◌, ◌++◌, map, filter, Map, get, insert, remove, keys, values, str_eq,
  contains, contains_key, is_some_and, is_empty, any, Bool-cases, Option-cases, inl, inr,
  get-insert, get-modify, filter_map, contains-ids_where, str_eq→eq, str_eq_refl, subst,
}
use zeptopm.Types.{RunId, JobId, Time, RunStatus, JobStatus, Run, Job}
use zeptopm.Store.{RunStore, get_run, list_runs, list_run_jobs, update_run, modify_run}
use zeptopm.Store.Laws.{IsWellFormed, run_key}
use zeptopm.Scheduler.{is_active, settle, check_run_completion}
use zeptopm.Engine.{Engine, Env, mark_failed, fail_or_retry}
use zeptopm.Agent.{stop}
use zeptopm.Daemon.{
  can_cancel, cancel_job, cancel_jobs, cancel_run, drain, finish_cancel, jobs_to_cancel,
  set_cancelled,
}
use zeptopm.Daemon.Cancellation.{cancel_run_eq, has_run-fail_or_retry}
use zeptopm.Daemon.World.{World, Effect, InternalAgent, persist_run_state, send, emit}

abbrev pub running_run_ids : RunStore → List RunId
running_run_ids s = map run_key (filter can_cancel (list_runs s))

-- The answer of `cancel_run` is not looked at.
unfoldable pub cancel_and_persist : Env → RunId → World → World
cancel_and_persist env run_id w =
    let ((e, managed), _) = cancel_run env run_id (w.engine, w.managed) in
    emit (persist_run_state run_id e.store) (record w { engine = e; managed = managed })

unfoldable pub cancel_runs : Env → List RunId → World → World
cancel_runs env [] w = w
cancel_runs env (run_id ∷ ids) w = cancel_runs env ids (cancel_and_persist env run_id w)

unfoldable pub stop_agents : Map InternalAgent → World → World
stop_agents [] w = w
stop_agents ((name, internal) ∷ managed) w = stop_agents managed (emit (send name stop) w)

unfoldable pub shutdown : Env → World → World
unfolding list_runs
shutdown env w =
    let w' = cancel_runs env (running_run_ids w.engine.store) w in stop_agents w'.managed w'

-- A run that `cancel_run` would cancel.
abbrev pub is_in_flight : RunId → RunStore → Bool
is_in_flight r s = is_some_and can_cancel (get_run r s)
