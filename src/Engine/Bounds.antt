-- ===== src/Engine/Bounds.antt =====
-- src/orchestrator/engine.rs: what holds of an engine after any calls of its methods, in any order.
use zeptopm.Base.{
  ℕ, ◌≤◌, ◌<◌, String, ◌≡◌, refl, sym, subst, ◌∙◌, arith, true, leb, ltb, List, [], ◌∷◌, length,
  get, remove, contains_key, Distinct, Distinct-insert, Distinct-remove, length-insert,
  length-remove-le, get-remove, contains_key-insert, str_eq→eq, Bool-cases, Option-cases, inl, inr,
}
use zeptopm.Types.{JobId, ArtifactId, RunId, Time, RunStatus, run_status_eq}
use zeptopm.Store.{RunStore, get_job, get_run}
use zeptopm.Store.Laws.{
  IsWellFormed, new-IsWellFormed, create_run-IsWellFormed, update_run-IsWellFormed,
  create_job-IsWellFormed, modify_job-IsWellFormed,
}
use zeptopm.Scheduler.Frame.{promote-keeps}
use zeptopm.Scheduler.Completion.{check_run_completion-IsWellFormed}
use zeptopm.Engine.{
  Engine, Env, new, submit_run, pop_ready, next_job, mark_running, record_heartbeat, mark_completed,
  mark_failed, start_run, start_attempt, complete_job, retry_job, fail_job, fail_or_retry,
  after_completion, can_retry,
}
use zeptopm.Engine.Review.{
  ReviewDecision, approved, revise, rejected, handle_review_completion, next_round, create_revision,
  reviewed_pair,
}
use zeptopm.Engine.Channels.Routing.{
  SameButChannels, route-keeps, route-IsWellFormed, done-keeps, peer_failure-keeps,
}
use zeptopm.Engine.Channels.Activation.{activation_exact, activate_ready_channels-IsWellFormed}
use zeptopm.Engine.Calls.{
  Call, submit, next, start, heartbeat, complete, fail, review, activate, say, done, peer_failure,
  step, run,
}

-- `limit` is the concurrency that the engine was made with.
pub record IsBounded (limit : ℕ) (e : Engine) : Type 0 where
  pub same_limit : e.max_concurrency ≡ limit
  pub store : IsWellFormed e.store
  pub active_distinct : Distinct e.active_jobs
  pub within_limit : length e.active_jobs ≤ limit
  pub beats_of_active :
      (k : JobId) → contains_key k e.last_heartbeat ≡ true → contains_key k e.active_jobs ≡ true

-- The limit is the one the engine keeps.
pub own : {limit : ℕ} {e : Engine} → IsBounded limit e → IsBounded e.max_concurrency e
own {e} h = subst (λ m. IsBounded m e) (sym h.same_limit) h

pub new-IsBounded : (limit : ℕ) → IsBounded limit (new limit)
unfolding new get
new-IsBounded limit = record {
  same_limit = unfold new in refl;
  store = new-IsWellFormed;
  active_distinct = tt;
  within_limit = omega arith;
  beats_of_active = λ k h. h;
}

module _ {limit : ℕ} {e : Engine} (h : IsBounded limit e) where
  -- A call that leaves the active jobs and the heartbeats alone.
  pub keeps :
      (e' : Engine)
      → IsWellFormed e'.store
      → e'.active_jobs ≡ e.active_jobs
      → e'.last_heartbeat ≡ e.last_heartbeat
      → e'.max_concurrency ≡ e.max_concurrency
      → IsBounded limit e'
  keeps e' w a b m = record {
    same_limit = m ∙ h.same_limit;
    store = w;
    active_distinct = rw a h.active_distinct;
    within_limit = rw a h.within_limit;
    beats_of_active = rw (a, b) h.beats_of_active;
  }

  pub submit_run-IsBounded :
      (env : Env) (task : String) (n : ℕ) → IsBounded limit (submit_run env task n e).0
  unfolding submit_run
  submit_run-IsBounded env task n =
      keeps (submit_run env task n e).0
        (create_job-IsWellFormed (create_run-IsWellFormed h.store _) _) refl refl refl

  pop_ready-IsBounded :
      (queue : List JobId) → length e.active_jobs < limit → IsBounded limit (pop_ready queue e).0
  unfolding pop_ready
  pop_ready-IsBounded [] room = h
  pop_ready-IsBounded (q ∷ qs) room = elim (Option-cases (get_job q e.store)) [
    | inl gone ↦ rw (gone, pop_ready) (keeps (record e { ready_queue = qs }) h.store refl refl refl)
    | inr (job, found) ↦
        rw (found, pop_ready)
          (record {
            same_limit = h.same_limit;
            store = h.store;
            active_distinct = Distinct-insert q job.run_id e.active_jobs h.active_distinct;
            within_limit = ground (arith, length-insert q job.run_id e.active_jobs, room);
            beats_of_active = λ k beat.
                ground (
                  arith,
                  h.beats_of_active k beat,
                  contains_key-insert k q job.run_id e.active_jobs,
                );
          })
  ]

  pub next_job-IsBounded : IsBounded limit (next_job e).0
  unfolding next_job
  next_job-IsBounded = elim (Bool-cases (leb e.max_concurrency (length e.active_jobs))) [
    | inl full ↦ rw full h
    | inr room ↦ rw room (pop_ready-IsBounded e.ready_queue (ground (arith, room, h.same_limit)))
  ]

  start_run-IsWellFormed :
      (r : RunId) (now : Time) (s : RunStore) → IsWellFormed s → IsWellFormed (start_run r now s)
  unfolding start_run
  start_run-IsWellFormed r now s w = elim (Option-cases (get_run r s)) [
    | inl gone ↦ rw (gone, start_run) w
    | inr (run, found) ↦ elim (Bool-cases (run_status_eq run.status RunStatus.pending)) [
      | inl fresh ↦ rw (found, start_run, fresh) (update_run-IsWellFormed w _)
      | inr old ↦ rw (found, start_run, old) w
    ]
  ]

  pub mark_running-IsBounded : (env : Env) (k : JobId) → IsBounded limit (mark_running env k e)
  unfolding mark_running
  mark_running-IsBounded env k = elim (Option-cases (get k e.active_jobs)) [
    | inl idle ↦ rw (idle, mark_running) h
    | inr (r, active) ↦
        rw (active, mark_running)
          (record {
            same_limit = h.same_limit;
            store = start_run-IsWellFormed r env.system _ (
                modify_job-IsWellFormed h.store k (start_attempt env.system)
                  (λ j. unfold start_attempt in refl));
            active_distinct = h.active_distinct;
            within_limit = h.within_limit;
            beats_of_active = λ i beat. ground (
              arith,
              h.beats_of_active i,
              contains_key-insert i k env.instant e.last_heartbeat,
              beat,
              active,
              str_eq→eq k i,
            );
          })
  ]

  pub record_heartbeat-IsBounded :
      (env : Env) (k : JobId) → IsBounded limit (record_heartbeat env k e)
  unfolding record_heartbeat
  record_heartbeat-IsBounded env k = elim (Bool-cases (contains_key k e.active_jobs)) [
    | inr idle ↦ rw idle h
    | inl active ↦ rw active (record {
      same_limit = h.same_limit;
      store = h.store;
      active_distinct = h.active_distinct;
      within_limit = h.within_limit;
      beats_of_active = λ i beat. ground (
        arith,
        h.beats_of_active i,
        contains_key-insert i k env.instant e.last_heartbeat,
        beat,
        active,
        str_eq→eq k i,
      );
    })
  ]

  -- A job leaves the active jobs together with its heartbeat.
  retires :
      (e' : Engine) (k : JobId)
      → IsWellFormed e'.store
      → e'.active_jobs ≡ remove k e.active_jobs
      → e'.last_heartbeat ≡ remove k e.last_heartbeat
      → e'.max_concurrency ≡ e.max_concurrency
      → IsBounded limit e'
  retires e' k w a b m = record {
    same_limit = m ∙ h.same_limit;
    store = w;
    active_distinct = rw a (Distinct-remove k e.active_jobs h.active_distinct);
    within_limit = rw a (omega (arith, length-remove-le k e.active_jobs, h.within_limit));
    beats_of_active =
        rw (a, b)
          (λ i beat. ground (
            arith,
            h.beats_of_active i,
            get-remove i k e.active_jobs,
            get-remove i k e.last_heartbeat,
            beat,
          ));
  }

  pub mark_completed-IsBounded :
      (env : Env) (k : JobId) (outputs : List ArtifactId)
      → IsBounded limit (mark_completed env k outputs e)
  unfolding mark_completed after_completion
  mark_completed-IsBounded env k outputs =
      let w =
        modify_job-IsWellFormed h.store k (complete_job env.system outputs)
          (λ j. unfold complete_job in refl) in
      elim (Option-cases (get k e.active_jobs)) [
        | inl idle ↦ rw (idle, mark_completed) (retires _ k w refl refl refl)
        | inr (r, active) ↦
            rw (active, mark_completed)
              (retires _ k
                (check_run_completion-IsWellFormed r env.system _ (promote-keeps r _ w).0) refl refl
                refl)
      ]

  fail_or_retry-IsBounded :
      (now : Time) (k : JobId) (error : String) → IsBounded limit (fail_or_retry now k error e)
  unfolding fail_or_retry
  fail_or_retry-IsBounded now k error = elim (Option-cases (get_job k e.store)) [
    | inl gone ↦ rw (gone, fail_or_retry) h
    | inr (job, found) ↦ elim (Bool-cases (can_retry job)) [
      | inl again ↦
          rw (found, fail_or_retry, again)
            (keeps _
              (modify_job-IsWellFormed h.store k (retry_job error) (λ j. unfold retry_job in refl))
              refl refl refl)
      | inr over ↦
          rw (found, fail_or_retry, over)
            (keeps _
              (modify_job-IsWellFormed h.store k (fail_job error now)
                (λ j. unfold fail_job in refl))
              refl refl refl)
    ]
  ]

  review-IsBounded :
      (env : Env) (k : JobId) (d : ReviewDecision) (rounds n : ℕ)
      → IsBounded limit (handle_review_completion env k d rounds n e).0
  unfolding handle_review_completion
  review-IsBounded env k approved rounds n = h
  review-IsBounded env k (rejected reason) rounds n = h
  review-IsBounded env k (revise feedback) rounds n = elim (Option-cases (reviewed_pair k e)) [
    | inl gone ↦ rw gone h
    | inr ((reviewer, coder), found) ↦ elim (Bool-cases (ltb rounds (next_round reviewer))) [
      | inl over ↦ rw (found, over) h
      | inr more ↦
          rw (found, more)
            (unfold create_revision in
              keeps _ (create_job-IsWellFormed (create_job-IsWellFormed h.store _) _) refl refl
                refl)
    ]
  ]

  pub channels-IsBounded :
      (e' : Engine) → IsWellFormed e'.store → SameButChannels e e' → IsBounded limit e'
  channels-IsBounded e' w same = keeps e' w same.4 same.5 same.6

pub mark_failed-IsBounded :
    {limit : ℕ} {e : Engine} (env : Env) (k : JobId) (error : String)
    → IsBounded limit e
    → IsBounded limit (mark_failed env k error e)
unfolding mark_failed
mark_failed-IsBounded {e} env k error h =
    let out = record e {
      active_jobs = remove k e.active_jobs;
      last_heartbeat = remove k e.last_heartbeat;
    } in
    let done =
      fail_or_retry-IsBounded (retires h out k h.store refl refl refl) env.system k error in
    elim (Option-cases (get k e.active_jobs)) [
      | inl idle ↦ rw (idle, mark_failed) done
      | inr (r, active) ↦
          rw (active, mark_failed)
            (keeps done _ (check_run_completion-IsWellFormed r env.system _ done.store) refl refl
              refl)
    ]

pub step-IsBounded :
    {limit : ℕ} (c : Env × Call) (s : Engine × ℕ)
    → IsBounded limit s.0
    → IsBounded limit (step c s).0
unfolding step
step-IsBounded (env, submit task) (e, n) h = submit_run-IsBounded h env task n
step-IsBounded (env, next) (e, n) h = next_job-IsBounded h
step-IsBounded (env, start k) (e, n) h = mark_running-IsBounded h env k
step-IsBounded (env, heartbeat k) (e, n) h = record_heartbeat-IsBounded h env k
step-IsBounded (env, complete k outputs) (e, n) h = mark_completed-IsBounded h env k outputs
step-IsBounded (env, fail k error) (e, n) h = mark_failed-IsBounded env k error h
step-IsBounded (env, review k d rounds) (e, n) h = review-IsBounded h env k d rounds n
step-IsBounded (env, activate) (e, n) h =
    channels-IsBounded h _ (activate_ready_channels-IsWellFormed e h.store)
      (activation_exact e h.store).1
step-IsBounded (env, say c from content) (e, n) h =
    channels-IsBounded h _ (route-IsWellFormed env.system c from content e h.store)
      (route-keeps env.system c from content e)
step-IsBounded (env, done c from) (e, n) h =
    let (w, same) = done-keeps c from e h.store in channels-IsBounded h _ w same
step-IsBounded (env, peer_failure c failed) (e, n) h =
    let (w, same) = peer_failure-keeps c failed e h.store in channels-IsBounded h _ w same

run_from-IsBounded :
    {limit : ℕ} (cs : List (Env × Call)) (s : Engine × ℕ)
    → IsBounded limit s.0
    → IsBounded limit (run cs s).0
unfolding run
run_from-IsBounded [] s h = h
run_from-IsBounded (c ∷ cs) s h = run_from-IsBounded cs (step c s) (step-IsBounded c s h)

-- From an engine with the limit `limit`, after any calls with any arguments in any order: the active
-- jobs are at most `limit`, no job is active twice, only active jobs have a heartbeat, and each
-- table of the store holds each record once, under its own id.
pub run-IsBounded :
    (limit n : ℕ) (cs : List (Env × Call))
    → let e = (run cs (new limit, n)).0 in
      (length e.active_jobs ≤ limit)
      × Distinct e.active_jobs
      × ((k : JobId) → contains_key k e.last_heartbeat ≡ true → contains_key k e.active_jobs ≡ true)
      × IsWellFormed e.store
run-IsBounded limit n cs =
    let h = run_from-IsBounded cs (new limit, n) (new-IsBounded limit) in
    (h.within_limit, h.active_distinct, h.beats_of_active, h.store)
