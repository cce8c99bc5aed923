-- ===== src/Engine/Lifecycle/Endings.antt =====
-- src/orchestrator/engine.rs: the completion and the failure of an active job keep the life of the
-- jobs in order.
use zeptopm.Base.{
  String, ◌≡◌, refl, ap, ◌∙◌, arith, true, if◌then◌else◌, some, List, [], ◌∷◌, ◌++◌, contains,
  contains-append, contains-snoc, contains_key, IsNodup, IsNodup-snoc, IsNodup-append, get, remove,
  modify, get-modify, get-remove, str_eq→eq, Bool-cases, Option-cases, inl, inr,
}
use zeptopm.Types.{RunId, JobId, ArtifactId, Job}
use zeptopm.Store.{RunStore, get_job, modify_job}
use zeptopm.Store.Laws.{IsWellFormed, get_job-modify_job, modify_job-IsWellFormed}
use zeptopm.Scheduler.{promote_unblocked_jobs}
use zeptopm.Scheduler.Promotion.{promote_exact, promote_lists}
use zeptopm.Scheduler.Frame.{promote-IsNodup}
use zeptopm.Scheduler.Completion.{check_run_completion_frame}
use zeptopm.Engine.{
  Engine, Env, complete_job, after_completion, mark_completed, retry_job, fail_job, fail_or_retry,
  can_retry, mark_failed,
}
use zeptopm.Engine.Bounds.{own, mark_completed-IsBounded, mark_failed-IsBounded}
use zeptopm.Engine.Lifecycle.{IsLive}

module _ {e : Engine} (h : IsLive e) (env : Env) (k : JobId) where
  module _ (outputs : List ArtifactId) (r : RunId) (busy : get k e.active_jobs ≡ some r) where
    -- The store once the job is completed, before the promotion.
    abbrev ended : RunStore
    ended = modify_job k (complete_job env.system outputs) e.store

    ended-IsWellFormed : IsWellFormed ended
    ended-IsWellFormed =
        modify_job-IsWellFormed h.bounded.store k (complete_job env.system outputs)
          (λ j. unfold complete_job in refl)

    completed_fields :
        let e' = mark_completed env k outputs e in
        (e'.store.jobs ≡ (promote_unblocked_jobs r ended).0.jobs)
        × (e'.ready_queue ≡ e.ready_queue ++ (promote_unblocked_jobs r ended).1)
        × (e'.active_jobs ≡ remove k e.active_jobs)
    unfolding mark_completed after_completion
    completed_fields =
        rw (busy, mark_completed)
          (
            (check_run_completion_frame r env.system (promote_unblocked_jobs r ended).0).0,
            refl,
            refl,
          )

    pub complete-IsLive : IsLive (mark_completed env k outputs e)
    complete-IsLive =
        let (jobs, queue, actives) = completed_fields in
        let look = λ (i : JobId). ap (get i) jobs ∙ promote_exact ended r ended-IsWellFormed i in
        let before =
          λ (i : JobId). get_job-modify_job i k (complete_job env.system outputs) e.store in
        let listed = λ (i : JobId). promote_lists ended r ended-IsWellFormed i in
        let was_running = λ (i : JobId). h.active i in
        record {
          bounded = own (mark_completed-IsBounded h.bounded env k outputs);
          queued = λ i.
              unfold complete_job in
              ground (
                arith,
                ap (contains i) queue,
                contains-append i e.ready_queue (promote_unblocked_jobs r ended).1,
                listed i,
                look i,
                before i,
                h.queued i,
                h.active i,
                busy,
                str_eq→eq k i,
              );
          active = λ i.
              unfold complete_job in
              ground (
                arith,
                ap (contains_key i) actives,
                get-remove i k e.active_jobs,
                look i,
                before i,
                h.active i,
              );
          once = rw queue (
              IsNodup-append e.ready_queue (promote_unblocked_jobs r ended).1 h.once
                (promote-IsNodup r ended ended-IsWellFormed)
                (λ i old.
                  unfold complete_job in
                  ground
                    (arith, listed i, before i, h.queued i, h.active i, busy, str_eq→eq k i, old)));
          budget = λ i j at. elim (Option-cases (get_job i e.store)) [
            | inl none' ↦ ground (arith, look i, before i, at, none')
            | inr (j0, here) ↦
                unfold complete_job in
                ground (arith, look i, before i, at, here, h.budget i j0 here)
          ];
        }

  -- The failed job goes back to the queue if it may be tried again.
  failed_fields :
      (error : String) (job : Job)
      → get_job k e.store ≡ some job
      → let e' = mark_failed env k error e in
        (e'.store.jobs
          ≡ modify k
              (if can_retry job then retry_job error else fail_job error env.system)
              e.store.jobs)
        × (e'.ready_queue ≡ (if can_retry job then e.ready_queue ++ k ∷ [] else e.ready_queue))
        × (e'.active_jobs ≡ remove k e.active_jobs)
  unfolding mark_failed fail_or_retry modify_job
  failed_fields error job found = elim (Option-cases (get k e.active_jobs)) [
    | inl idle ↦ ground (arith, found, idle)
    | inr (r, busy) ↦
        let frame = λ (s : RunStore). (check_run_completion_frame r env.system s).0 in
        elim (Bool-cases (can_retry job)) [
          | inl again ↦ rw (busy, mark_failed, found, fail_or_retry, again) (frame _, refl, refl)
          | inr over ↦ rw (busy, mark_failed, found, fail_or_retry, over) (frame _, refl, refl)
        ]
  ]

  pub fail-IsLive :
      (error : String) → contains_key k e.active_jobs ≡ true → IsLive (mark_failed env k error e)
  fail-IsLive error busy = elim (Option-cases (get_job k e.store)) [
    | inl gone ↦ ground (arith, h.active k, gone, busy)
    | inr (job, found) ↦
        let (jobs, queue, actives) = failed_fields error job found in
        let f = if can_retry job then retry_job error else fail_job error env.system in
        let look = λ (i : JobId). ap (get i) jobs ∙ get-modify i k f e.store.jobs in
        record {
          bounded = own (mark_failed-IsBounded env k error h.bounded);
          queued = λ i.
              unfold retry_job fail_job in
              ground (
                arith,
                ap (contains i) queue,
                contains-snoc i e.ready_queue k,
                look i,
                h.queued i,
                h.active i,
                found,
                busy,
                str_eq→eq k i,
              );
          active = λ i.
              unfold retry_job fail_job in
              ground (
                arith,
                ap (contains_key i) actives,
                get-remove i k e.active_jobs,
                look i,
                h.active i,
                found,
                str_eq→eq k i,
              );
          once = ground (
            arith,
            ap IsNodup queue,
            h.once,
            h.queued k,
            h.active k,
            found,
            busy,
            IsNodup-snoc e.ready_queue k,
          );
          budget = λ i j at. elim (Option-cases (get_job i e.store)) [
            | inl none' ↦ ground (arith, look i, at, none')
            | inr (j0, here) ↦
                unfold retry_job fail_job in
                ground (arith, look i, at, here, found, h.budget i j0 here, str_eq→eq k i)
          ];
        }
  ]
