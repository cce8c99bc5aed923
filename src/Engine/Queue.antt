-- ===== src/Engine/Queue.antt =====
-- src/orchestrator/engine.rs: what `next_job` does to the queue of the ready jobs.
use zeptopm.Base.{
  suc, ◌≤◌, ◌≡◌, arith, leb, length, List, [], ◌∷◌, some, Option-cases, Bool-cases, inl, inr,
}
use zeptopm.Types.{Job, JobId}
use zeptopm.Store.{get_job}
use zeptopm.Engine.{Engine, pop_ready, next_job}

pop_ready_shorter :
    (queue : List JobId) (e : Engine) (job : Job)
    → (pop_ready queue e).1 ≡ some job
    → suc (length (pop_ready queue e).0.ready_queue) ≤ length queue
unfolding pop_ready
pop_ready_shorter [] e job h = cc
pop_ready_shorter (k ∷ ks) e job h = elim (Option-cases (get_job k e.store)) [
  | inl gone ↦ ground (arith, gone, h)
  | inr (j, found) ↦ ground (arith, found, h)
]

-- A job that is handed out has left the queue.
pub next_job_shorter :
    (e : Engine) (job : Job)
    → (next_job e).1 ≡ some job
    → suc (length (next_job e).0.ready_queue) ≤ length e.ready_queue
unfolding next_job
next_job_shorter e job h = elim (Bool-cases (leb e.max_concurrency (length e.active_jobs))) [
  | inl full ↦ ground (arith, full, h)
  | inr free ↦ ground (arith, free, h, pop_ready_shorter e.ready_queue e job)
]
