-- ===== src/Engine/Lifecycle/Reachable.antt =====
-- src/orchestrator/engine.rs: the life of the jobs is in order in every state that the turns of the
-- daemon reach from a new engine.
use zeptopm.Base.{
  ℕ, ◌≡◌, refl, ap, sym, subst, arith, true, leb, none, some, List, [], ◌∷◌, length, contains,
  contains-head, contains_key, is_some_and, get, str_eq_refl, Bool-cases, Option-cases, inl, inr,
}
use zeptopm.Types.{JobId, ArtifactId, Job, JobStatus}
use zeptopm.Store.{get_job}
use zeptopm.Store
use zeptopm.Store.Laws.{IsWellFormed}
use zeptopm.Engine.{Engine, Env, new, pop_ready, next_job, record_heartbeat, mark_completed}
use zeptopm.Engine.Bounds.{
  own, IsBounded, channels-IsBounded, new-IsBounded, record_heartbeat-IsBounded,
}
use zeptopm.Engine.Channels.Routing.{
  SameButChannels, route-keeps, route-IsWellFormed, done-keeps, peer_failure-keeps,
}
use zeptopm.Engine.Channels.Activation.{activation_exact, activate_ready_channels-IsWellFormed}
use zeptopm.Engine.Lifecycle.{
  is_ready_job, IsLive, Turn, submitted, planned, reviewed, started, waited, beat, completed,
  failed, activated, said, done, peer_failed, Reach, here, next_turn,
}
use zeptopm.Engine.Lifecycle.Steps.{submit_run-IsLive, start-IsLive}
use zeptopm.Engine.Lifecycle.Plans.{planned-IsLive}
use zeptopm.Engine.Lifecycle.Revisions.{review-IsLive}
use zeptopm.Engine.Lifecycle.Endings.{complete-IsLive, fail-IsLive}

new-IsLive : (limit : ℕ) → IsLive (new limit)
unfolding new Store.new get contains
new-IsLive limit = record {
  bounded = new-IsBounded limit;
  queued = λ k. refl;
  active = λ k. refl;
  once = tt;
  budget = λ k j e. cc;
}

-- The queue's first job, as `next_job` finds it in a state in order.
pop_ready_live :
    (q : JobId) (rest : List JobId) (e : Engine)
    → is_some_and is_ready_job (get_job q e.store) ≡ true
    → (job : Job) × ((pop_ready (q ∷ rest) e).1 ≡ some job) × (job.status ≡ JobStatus.ready)
unfolding pop_ready
pop_ready_live q rest e live = elim (Option-cases (get_job q e.store)) [
  | inl gone ↦ ground (arith, live, gone)
  | inr (job, found) ↦ (job, ground (arith, found), ground (arith, found, live))
]

module _ {e : Engine} (h : IsLive e) where
  -- Where `next_job` gives nothing, it changes nothing.
  next_job_waits : (next_job e).1 ≡ none → (next_job e).0 ≡ e
  unfolding next_job
  next_job_waits idle = elim (Bool-cases (leb e.max_concurrency (length e.active_jobs))) [
    | inl full ↦ rw full refl
    | inr room ↦ rw room (serve e.ready_queue refl (ground (arith, room)))
  ]
    where
      serve :
          (queue : List JobId)
          → e.ready_queue ≡ queue
          → (pop_ready queue e).1 ≡ none
          → (pop_ready queue e).0 ≡ e
      serve [] same got = unfold pop_ready in refl
      serve (q ∷ rest) same got =
          let (job, out, _) = pop_ready_live q rest e (
            ground
              (arith, h.queued q, ap (contains q) same, contains-head q q rest, str_eq_refl q)) in
          ground (arith, out, got)

  same-IsLive : (e' : Engine) → IsBounded e.max_concurrency e' → SameButChannels e e' → IsLive e'
  same-IsLive e' b same = record {
    bounded = own b;
    queued = rw (same.0, same.3) h.queued;
    active = rw (same.0, same.4) h.active;
    once = rw same.3 h.once;
    budget = rw same.0 h.budget;
  }

  beat-IsLive : (env : Env) (k : JobId) → IsLive (record_heartbeat env k e)
  beat-IsLive env k =
      same-beat (record_heartbeat-IsBounded h.bounded env k)
        (unfold record_heartbeat in ground arith) (unfold record_heartbeat in ground arith)
        (unfold record_heartbeat in ground arith)
    where
      same-beat :
          IsBounded e.max_concurrency (record_heartbeat env k e)
          → (record_heartbeat env k e).store ≡ e.store
          → (record_heartbeat env k e).ready_queue ≡ e.ready_queue
          → (record_heartbeat env k e).active_jobs ≡ e.active_jobs
          → IsLive (record_heartbeat env k e)
      same-beat b s q a = record {
        bounded = own b;
        queued = rw (s, q) h.queued;
        active = rw (s, a) h.active;
        once = rw q h.once;
        budget = rw s h.budget;
      }

  channels-IsLive : (e' : Engine) → IsWellFormed e'.store → SameButChannels e e' → IsLive e'
  channels-IsLive e' w same = same-IsLive e' (channels-IsBounded h.bounded e' w same) same

complete_active :
    {e : Engine} (h : IsLive e) (env : Env) (k : JobId) (outputs : List ArtifactId)
    → contains_key k e.active_jobs ≡ true
    → IsLive (mark_completed env k outputs e)
complete_active {e} h env k outputs busy = elim (Option-cases (get k e.active_jobs)) [
  | inl idle ↦ ground (arith, busy, idle)
  | inr (r, found) ↦ complete-IsLive h env k outputs r found
]

Turn-IsLive : {e e' : Engine} → IsLive e → Turn e e' → IsLive e'
Turn-IsLive h (submitted env task n fresh same) = rw same (submit_run-IsLive h env task n fresh)
Turn-IsLive h (planned env run_id job_id plan w valid small new_ids same after) =
    rw after
      (planned-IsLive env run_id job_id plan w valid small new_ids (subst IsLive (sym same) h))
Turn-IsLive {e} h (reviewed env k decision rounds n pair same) =
    rw same (review-IsLive env e n h pair k decision rounds)
Turn-IsLive h (started env job got same) = rw same (start-IsLive h env job got)
Turn-IsLive h (waited idle same) = rw (same, next_job_waits h idle) h
Turn-IsLive h (beat env k same) = rw same (beat-IsLive h env k)
Turn-IsLive {e} h (completed env k outputs busy same) =
    rw same (complete_active h env k outputs busy)
Turn-IsLive h (failed env k error busy same) = rw same (fail-IsLive h env k error busy)
Turn-IsLive {e} h (activated same) = rw same (
    channels-IsLive h _ (activate_ready_channels-IsWellFormed e h.bounded.store)
      (activation_exact e h.bounded.store).1)
Turn-IsLive {e} h (said env c from content same) = rw same (
    channels-IsLive h _ (route-IsWellFormed env.system c from content e h.bounded.store)
      (route-keeps env.system c from content e))
Turn-IsLive {e} h (done c from same) =
    let (w, kept) = done-keeps c from e h.bounded.store in rw same (channels-IsLive h _ w kept)
Turn-IsLive {e} h (peer_failed c job same) =
    let (w, kept) = peer_failure-keeps c job e h.bounded.store in
    rw same (channels-IsLive h _ w kept)

-- In every state reached from a new engine by the turns of `Turn` in any order: submitting runs,
-- materializing valid plans and queueing their ready jobs, and handling the decisions of reviews,
-- all under ids that are new to the store; starting what `next_job` gives; completing and failing
-- jobs that are active; heartbeats; activating channels and calls about them. There the ready queue
-- holds exactly the ready jobs of the store, each once; the active jobs are exactly the running ones,
-- and at most the limit; and a job still to be started has an attempt left, no job having had more
-- than its maximum. Not among the turns are the cancellation of a run, the recovery after a restart
-- of the daemon, and the completion or failure of a job that is not active.
pub Reach-IsLive : (limit : ℕ) {e : Engine} → Reach (new limit) e → IsLive e
Reach-IsLive limit r = along r (new-IsLive limit)
  where
    along : {e f : Engine} → Reach e f → IsLive e → IsLive f
    along here h = h
    along (next_turn r t) h = Turn-IsLive (along r h) t
