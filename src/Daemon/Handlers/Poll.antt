-- ===== src/Daemon/Handlers/Poll.antt =====
-- src/daemon.rs, the loop of `run`: what the tick of the poll does for jobs and for old runs. That old
-- runs are removed once an hour at most is left out.
use zeptopm.Base.{
  ◌-◌, ◌*◌, Bool, not, ◌&&◌, ◌||◌, if◌then◌else◌, ltb, List, [], ◌∷◌, ◌++◌, map, filter, any, get,
  keys, is_some_and,
}
use zeptopm.Types.{
  RunId, JobId, Time, RunStatus, JobStatus, Run, Job, Channel, job_status_eq, run_status_eq,
}
use zeptopm.Store.{get_job, list_runs, remove_run, all_channels_for_job}
use zeptopm.Engine.{Env, record_heartbeat, stale_jobs}
use zeptopm.Agent.{AgentStatus, agent_status_eq}
use zeptopm.Daemon.{worker_name}
use zeptopm.Daemon.World.{InternalAgent, World, Host, delete_run, remove_file}
use zeptopm.Daemon.Workers.{stop_worker}
use zeptopm.Daemon.Handlers.{run_of_job, settle, fail_job}

-- A job whose worker is idle between the turns of an open channel.
abbrev pub is_waiting : World → JobId → Bool
is_waiting w job_id =
    is_some_and
      (λ (m : InternalAgent).
        m.supports_direct_chat
        && (agent_status_eq m.state.status AgentStatus.idle
            && (is_some_and (λ (j : Job). job_status_eq j.status JobStatus.running)
                  (get_job job_id w.engine.store)
                && any (λ (c : Channel). not c.closed)
                    (all_channels_for_job job_id w.engine.store))))
      (get (worker_name job_id) w.managed)

unfoldable pub refresh : Env → List JobId → World → World
refresh env [] w = w
refresh env (job_id ∷ job_ids) w =
    refresh env job_ids (
      if is_waiting w job_id then record w { engine = record_heartbeat env job_id w.engine } else w)

unfoldable pub fail_stale : Env → Host → List JobId → World → World
unfolding fail_job
fail_stale env host [] w = w
fail_stale env host (job_id ∷ job_ids) w = fail_stale env host job_ids (
    settle env host (run_of_job job_id w)
      (fail_job env host job_id "heartbeat timeout" (stop_worker job_id w)))

-- Of the poll, the part about jobs: the limit is 120 seconds.
unfoldable pub poll_jobs : Env → Host → World → World
unfolding refresh fail_stale
poll_jobs env host w =
    let w' = refresh env (keys w.engine.active_jobs) w in
    fail_stale env host (stale_jobs env.instant 120000 w'.engine) w'

abbrev has_settled : RunStatus → Bool
has_settled status =
    run_status_eq status RunStatus.completed
    || (run_status_eq status RunStatus.failed || run_status_eq status RunStatus.cancelled)

abbrev pub expired_runs : Time → World → List RunId
expired_runs cutoff w =
    map (λ (r : Run). r.run_id)
      (filter (λ (r : Run). has_settled r.status && ltb r.updated_at cutoff)
        (list_runs w.engine.store))

unfoldable pub remove_runs : List RunId → World → World
remove_runs [] w = w
remove_runs (run_id ∷ run_ids) w =
    let (s, paths) = remove_run run_id w.engine.store in
    remove_runs run_ids (record w {
      engine = record w.engine { store = s };
      effects = w.effects ++ (map remove_file paths ++ delete_run run_id ∷ []);
    })

-- Of the poll, the removal of runs that ended longer ago than the configured days.
unfoldable pub cleanup : Env → World → World
unfolding remove_runs
cleanup env w =
    let ttl = w.config.daemon.run_ttl_days * 86400000 in
    if ltb 0 w.config.daemon.run_ttl_days
    then remove_runs (expired_runs (env.system - ttl) w) w
    else w
