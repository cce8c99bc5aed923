-- ===== src/Daemon/Tests.antt =====
-- src/daemon.rs: the theorems at concrete inputs.
use zeptopm.Base.{
  ℕ, String, ◌≡◌, refl, contains, true, some, List, [], ◌∷◌, Map, map_option, get, str_eq, false,
  filter_map, filter, map, keys, ◌++◌, none, if◌then◌else◌, is_some_and, ◌&&◌,
}
use zeptopm.Types.{RunId, JobId, RunStatus, JobStatus, Job}
use zeptopm.Store.{get_job, list_runs, list_run_jobs}
use zeptopm.Scheduler.{is_active}
use zeptopm.Store.Laws.{run_key}
use zeptopm.Daemon.{can_cancel, cancel_run}
use zeptopm.Daemon.Cancellation.{status_of, cancelled_job}
use zeptopm.Daemon.Cancellation.Exact.{is_other, running_workers, cancel_run_exact}
use zeptopm.Daemon.Hydration.{
  hydrate, hydrate_jobs, hydrate_job, hydrate_runs, hydrate_artifacts, hydrate_channels, lost_job,
}
use zeptopm.Daemon.Hydration.Restart.{IsRestored, hydrate-IsRestored}
use zeptopm.Daemon.World.{World}
use zeptopm.Daemon.Samples.{a_world}
use zeptopm.Daemon.Shutdown.{shutdown, cancel_runs, running_run_ids, is_in_flight}
use zeptopm.Daemon.Shutdown.Quiet.{persisted_run, stopped_agent, shutdown_lem}
use zeptopm.Engine.{Engine, new}
use zeptopm.Samples.{a_job, a_store, a_store-IsWellFormed, a_channel, a_run, an_env, an_engine}

-- The job `a` is done, `b` runs in the worker `__job_b`, and an id of no job of the run is queued.
abbrev working : Engine
working = an_engine (a_store JobStatus.completed JobStatus.running a_channel) ("z" ∷ [])

abbrev workers : Map ℕ
workers = ("__job_b", 7) ∷ []

cancel_run_exact_example :
    let ((e', managed'), ok) = cancel_run an_env "r" (working, workers) in
    (ok ≡ true)
    × (status_of "r" e'.store ≡ some RunStatus.cancelled)
    × ((k : JobId)
        → get_job k e'.store
          ≡ map_option (cancelled_job an_env.system "r") (get_job k working.store))
    × (e'.ready_queue ≡ filter (is_other "r" working.store) working.ready_queue)
    × ((k : JobId)
        → get k e'.active_jobs ≡ (
            if is_some_and
              (λ (j : Job). str_eq j.run_id "r" && is_active j.status)
              (get_job k working.store)
            then none
            else get k working.active_jobs))
    × ((k : String)
        → get k managed' ≡ (
            if contains k (running_workers (list_run_jobs "r" working.store))
            then none
            else get k workers))
unfolding get str_eq
cancel_run_exact_example =
    cancel_run_exact an_env working workers a_run "r"
      (a_store-IsWellFormed JobStatus.completed JobStatus.running a_channel refl) refl refl

-- A job that ran, one that was ready, and one that is done.
abbrev persisted : List Job
persisted =
    a_job "a" JobStatus.running []
    ∷ a_job "b" JobStatus.ready []
    ∷ a_job "c" JobStatus.completed []
    ∷ []

hydrate-IsRestored_example :
    IsRestored (hydrate 9 (a_run ∷ []) persisted [] (a_channel ∷ []) (new 4))
unfolding contains str_eq
hydrate-IsRestored_example =
    hydrate-IsRestored 4 9 (a_run ∷ []) persisted [] (a_channel ∷ []) (refl, (refl, (refl, tt)))

requeued :
    (hydrate 9 (a_run ∷ []) persisted [] (a_channel ∷ []) (new 4)).ready_queue ≡ "a" ∷ "b" ∷ []
unfolding hydrate new hydrate_jobs hydrate_job hydrate_runs hydrate_artifacts hydrate_channels
    lost_job
requeued = refl

-- The daemon ends while the worker of `b` runs.
abbrev ending : World
ending = a_world working

shutdown_lem_example :
    let w' = shutdown an_env ending in
    ((r : RunId) → is_in_flight r w'.engine.store ≡ false)
    × (filter_map persisted_run w'.effects
        ≡ filter_map persisted_run ending.effects
          ++ map run_key (filter can_cancel (list_runs ending.engine.store)))
    × (filter_map stopped_agent w'.effects
        ≡ filter_map stopped_agent ending.effects
          ++ keys (cancel_runs an_env (running_run_ids ending.engine.store) ending).managed)
shutdown_lem_example =
    shutdown_lem an_env ending
      (a_store-IsWellFormed JobStatus.completed JobStatus.running a_channel refl)
