-- ===== src/Engine/Lifecycle.antt =====
-- src/orchestrator/engine.rs: the life of the jobs under the calls that the daemon makes, as turns: a
-- job is completed or failed only while it is active, and is started as soon as it is taken from the
-- queue; a plan's ready jobs are queued with its materialization. `cancel_run`, the hydration and the
-- end of a job that is not active are not turns.
pub mod Steps
pub mod Endings
pub mod Plans
pub mod Revisions
pub mod Reachable
use zeptopm.Base.{
  ℕ, ◌≤◌, ◌<◌, ◌+◌, ◌%◌, String, ◌≡◌, Bool, true, false, Option, none, some, List, [], length,
  contains, contains_key, is_some_and, str_eq, IsNodup, u32_mod, u64_mod,
}
use zeptopm.Types.{
  RunId, JobId, ArtifactId, ChannelId, JobStatus, Job, ExecutionPlan, job_status_eq,
}
use zeptopm.Planner.{Site, validate_plan, materialize_plan}
use zeptopm.Daemon.World.{World}
use zeptopm.Daemon.Handlers.{apply_plan}
use zeptopm.Store.{get_job}
use zeptopm.Engine.{
  Engine, Env, submit_run, next_job, mark_running, record_heartbeat, mark_completed, mark_failed,
}
use zeptopm.Engine.Bounds.{IsBounded}
use zeptopm.Engine.Channels.Routing.{SameButChannels}
use zeptopm.Engine.Channels.{
  activate_ready_channels, route_channel_message, handle_channel_done, handle_channel_peer_failure,
}
use zeptopm.Engine.Review.{handle_review_completion, ReviewDecision}
use zeptopm.Scheduler.{gen_id}

abbrev pub is_ready_job : Job → Bool
is_ready_job j = job_status_eq j.status JobStatus.ready

abbrev pub is_running_job : Job → Bool
is_running_job j = job_status_eq j.status JobStatus.running

-- A job that is still to be started.
abbrev pub is_to_start : JobStatus → Bool
is_to_start JobStatus.pending = true
is_to_start JobStatus.ready = true
is_to_start _ = false

-- A job that is still to be started has an attempt left, and no job has more than it may.
abbrev pub HasBudget : Job → Type 0
HasBudget j =
    (j.max_attempts < u32_mod)
    × (j.attempt ≤ j.max_attempts)
    × (is_to_start j.status ≡ true → j.attempt < j.max_attempts)

-- The queue holds exactly the ready jobs, each once; the active jobs are exactly the running ones.
pub record IsLive (e : Engine) : Type 0 where
  pub bounded : IsBounded e.max_concurrency e
  pub queued : (k : JobId) → contains k e.ready_queue ≡ is_some_and is_ready_job (get_job k e.store)
  pub active :
      (k : JobId) → contains_key k e.active_jobs ≡ is_some_and is_running_job (get_job k e.store)
  pub once : IsNodup e.ready_queue
  pub budget : (k : JobId) (j : Job) → get_job k e.store ≡ some j → HasBudget j

abbrev pub site_of : Env → Site
site_of env = record { home = env.home; now = env.system }

-- The ids that a plan's jobs are given are new to the store.
abbrev pub HasNewIds : Env → RunId → JobId → ExecutionPlan → World → Type 0
HasNewIds env run_id job_id plan w =
    (k : JobId)
    → contains k (materialize_plan (site_of env) run_id job_id plan w.counter w.engine.store).1
      ≡ true
    → get_job k w.engine.store ≡ none

-- The two ids that a revision would make next are new to the store, and differ.
abbrev pub HasNewPair : Env → ℕ → Engine → Type 0
HasNewPair env n e =
    let (coder_id, m) = gen_id "job" env.system n in
    let reviewer_id = (gen_id "job" env.system m).0 in
    (get_job coder_id e.store ≡ none)
    × (get_job reviewer_id e.store ≡ none)
    × (str_eq reviewer_id coder_id ≡ false)

-- One call of the daemon, or the calls that it makes together. The ids made are new to the store.
pub data Turn (e e' : Engine) : Type 0 where
  submitted :
      (env : Env) (task : String) (n : ℕ)
      → get_job (gen_id "job" env.system (gen_id "run" env.system n).1).0 e.store ≡ none
      → e' ≡ (submit_run env task n e).0
      → Turn e e'
  planned :
      (env : Env) (run_id : RunId) (job_id : JobId) (plan : ExecutionPlan) (w : World)
      → validate_plan plan ≡ []
      → w.counter + length plan.jobs < u64_mod
      → HasNewIds env run_id job_id plan w
      → w.engine ≡ e
      → e' ≡ (apply_plan env run_id job_id plan w).engine
      → Turn e e'
  reviewed :
      (env : Env) (k : JobId) (decision : ReviewDecision) (max_revisions : ℕ) (n : ℕ)
      → HasNewPair env n e
      → e' ≡ (handle_review_completion env k decision max_revisions n e).0
      → Turn e e'
  started :
      (env : Env) (job : Job)
      → (next_job e).1 ≡ some job
      → e' ≡ mark_running env job.job_id (next_job e).0
      → Turn e e'
  waited : (next_job e).1 ≡ none → e' ≡ (next_job e).0 → Turn e e'
  beat : (env : Env) (k : JobId) → e' ≡ record_heartbeat env k e → Turn e e'
  completed :
      (env : Env) (k : JobId) (outputs : List ArtifactId)
      → contains_key k e.active_jobs ≡ true
      → e' ≡ mark_completed env k outputs e
      → Turn e e'
  failed :
      (env : Env) (k : JobId) (error : String)
      → contains_key k e.active_jobs ≡ true
      → e' ≡ mark_failed env k error e
      → Turn e e'
  activated : e' ≡ (activate_ready_channels e).0 → Turn e e'
  said :
      (env : Env) (c : ChannelId) (from_job : JobId) (content : String)
      → e' ≡ (route_channel_message env.system c from_job content e).0
      → Turn e e'
  done : (c : ChannelId) (from_job : JobId) → e' ≡ (handle_channel_done c from_job e).0 → Turn e e'
  peer_failed :
      (c : ChannelId) (failed_job : JobId)
      → e' ≡ (handle_channel_peer_failure c failed_job e).0
      → Turn e e'

pub data Reach (e : Engine) : Engine → Type 0 where
  here : Reach e e
  next_turn : {f g : Engine} → Reach e f → Turn f g → Reach e g
