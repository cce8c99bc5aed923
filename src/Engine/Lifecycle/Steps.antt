-- ===== src/Engine/Lifecycle/Steps.antt =====
-- src/orchestrator/engine.rs: each call of the daemon keeps the life of the jobs in order.
use zeptopm.Base.{
  ℕ, String, ◌≡◌, refl, ap, ◌∙◌, subst, arith, false, leb, Option, none, some, List, [], ◌∷◌,
  length, contains, contains-head, contains_key, contains_key-insert, contains-snoc, IsNodup,
  IsNodup-snoc, get, insert, modify, get-modify, get-insert, get-insert_self, Keyed-get, str_eq→eq,
  str_eq_refl, Bool-cases, Option-cases, inl, inr,
}
use zeptopm.Types.{RunId, JobId, Time, Job}
use zeptopm.Store.{RunStore, update_run, get_job, modify_job, create_job, create_run}
use zeptopm.Store.Laws.{job_key}
use zeptopm.Scheduler.{gen_id}
use zeptopm.Engine.{
  Engine, Env, planner_job, submit_run, pop_ready, next_job, mark_running, start_run, start_attempt,
}
use zeptopm.Engine.Bounds.{own, submit_run-IsBounded, next_job-IsBounded, mark_running-IsBounded}
use zeptopm.Engine.Lifecycle.{IsLive}

-- Taking a job from the queue: the queue had it in front, and the store has it.
abbrev pub Taken : Engine → List JobId → Job → Engine × Option Job → Type 0
Taken e queue job out =
    (q : JobId) × (rest : List JobId) × (queue ≡ q ∷ rest)
    × (get_job q e.store ≡ some job)
    × (out.0 ≡ record e { ready_queue = rest; active_jobs = insert q job.run_id e.active_jobs })

pop_ready-some :
    (queue : List JobId) (e : Engine) (job : Job)
    → (pop_ready queue e).1 ≡ some job
    → Taken e queue job (pop_ready queue e)
unfolding pop_ready
pop_ready-some [] e job got = cc
pop_ready-some (q ∷ qs) e job got = elim (Option-cases (get_job q e.store)) [
  | inl gone ↦ ground (arith, gone)
  | inr (found, here) ↦ (q, qs, refl, ground (arith, here), ground (arith, here))
]

pub next_job-some :
    (e : Engine) (job : Job) → (next_job e).1 ≡ some job → Taken e e.ready_queue job (next_job e)
unfolding next_job
next_job-some e job got = elim (Bool-cases (leb e.max_concurrency (length e.active_jobs))) [
  | inl full ↦ ground (arith, full)
  | inr room ↦ rw room (pop_ready-some e.ready_queue e job (ground (arith, room)))
]

start_run-jobs : (r : RunId) (now : Time) (s : RunStore) → (start_run r now s).jobs ≡ s.jobs
unfolding start_run update_run
start_run-jobs r now s = ground arith

started_fields :
    (env : Env) (q : JobId) (rest : List JobId) (job : Job) (e e1 : Engine)
    → e1 ≡ record e { ready_queue = rest; active_jobs = insert q job.run_id e.active_jobs }
    → ((mark_running env q e1).store.jobs ≡ modify q (start_attempt env.system) e.store.jobs)
      × ((mark_running env q e1).ready_queue ≡ rest)
      × ((mark_running env q e1).active_jobs ≡ insert q job.run_id e.active_jobs)
unfolding mark_running modify_job
started_fields env q rest job e e1 taken =
    let mine : get q e1.active_jobs ≡ some job.run_id =
      ap (λ (x : Engine). get q x.active_jobs) taken ∙ get-insert_self q job.run_id e.active_jobs in
    rw (mine, mark_running)
      (
        start_run-jobs job.run_id env.system _
            ∙ ap (λ (x : Engine). modify q (start_attempt env.system) x.store.jobs) taken,
        ap (λ (x : Engine). x.ready_queue) taken,
        ap (λ (x : Engine). x.active_jobs) taken,
      )

module _ {e : Engine} (h : IsLive e) where
  pub submit_run-IsLive :
      (env : Env) (task : String) (n : ℕ)
      → get_job (gen_id "job" env.system (gen_id "run" env.system n).1).0 e.store ≡ none
      → IsLive (submit_run env task n e).0
  unfolding submit_run create_job create_run planner_job
  submit_run-IsLive env task n fresh =
      let run_id = (gen_id "run" env.system n).0 in
      let id = (gen_id "job" env.system (gen_id "run" env.system n).1).0 in
      let job = planner_job env run_id id task in
      record {
        bounded = submit_run-IsBounded h.bounded env task n;
        queued = λ k. ground (
          arith,
          h.queued k,
          contains-snoc k e.ready_queue id,
          get-insert k id job e.store.jobs,
          fresh,
          str_eq→eq id k,
        );
        active = λ k.
            ground (arith, h.active k, get-insert k id job e.store.jobs, fresh, str_eq→eq id k);
        once = IsNodup-snoc e.ready_queue id (ground (arith, h.queued id, fresh)) h.once;
        budget = λ k j found. ground (arith, h.budget k j, get-insert k id job e.store.jobs, found);
      }

  -- What a start leaves: the job out of the queue, active, and with one attempt more.
  pub start-IsLive :
      (env : Env) (job : Job)
      → (next_job e).1 ≡ some job
      → IsLive (mark_running env job.job_id (next_job e).0)
  start-IsLive env job got =
      let (q, rest, front, found, taken) = next_job-some e job got in
      let named : job.job_id ≡ q =
        Keyed-get job_key q job e.store.jobs h.bounded.store.jobs.1 found in
      let e' = mark_running env q (next_job e).0 in
      let (jobs, queue, actives) = started_fields env q rest job e (next_job e).0 taken in
      let out : contains q rest ≡ false = (subst IsNodup front h.once).0 in
      let head = λ (k : JobId). ap (contains k) front ∙ contains-head k q rest in
      let look =
        λ (k : JobId). ap (get k) jobs ∙ get-modify k q (start_attempt env.system) e.store.jobs in
      rw named (record {
        bounded = own (mark_running-IsBounded (next_job-IsBounded h.bounded) env q);
        queued = λ k.
            unfold start_attempt in
            ground
              (arith, ap (contains k) queue, h.queued k, head k, look k, out, found, str_eq→eq q k);
        active = λ k.
            unfold start_attempt in
            ground (
              arith,
              ap (contains_key k) actives,
              contains_key-insert k q job.run_id e.active_jobs,
              h.active k,
              look k,
              found,
              str_eq→eq q k,
            );
        once = rw queue (subst IsNodup front h.once).1;
        budget = λ k j at.
            unfold start_attempt in
            ground (
              arith,
              h.budget k j,
              h.budget q job found,
              h.queued q,
              head q,
              str_eq_refl q,
              look k,
              at,
              found,
              str_eq→eq q k,
            );
      })
