-- ===== src/Engine/Lifecycle/Plans.antt =====
-- src/daemon.rs, lines 484 to 498: the jobs of a plan enter a state in order.
use zeptopm.Base.{
  ◌<◌, ◌+◌, ◌≡◌, refl, arith, true, false, some, List, [], ◌++◌, filter, length, contains,
  contains-append, contains-filter, contains_key, is_some_and, IsNodup, IsNodup-append,
  IsNodup-filter, Bool-cases, inl, inr, u64_mod, subst,
}
use zeptopm.Types.{RunId, JobId, Job, ExecutionPlan}
use zeptopm.Store.{RunStore, get_job}
use zeptopm.Planner.{validate_plan, materialize_plan}
use zeptopm.Planner.Materialize.{materialize_plan-IsWellFormed}
use zeptopm.Planner.Refinement.{materialize_plan-IsMaterialized}
use zeptopm.Planner.Created.{IsFresh, materialize_plan-new}
use zeptopm.Engine.{Env}
use zeptopm.Engine.Bounds.{own, keeps}
use zeptopm.Engine.Lifecycle.{is_ready_job, is_running_job, HasBudget, IsLive, site_of, HasNewIds}
use zeptopm.Daemon.World.{World}
use zeptopm.Daemon.Handlers.{apply_plan}

fresh-HasBudget : (j : Job) → IsFresh j → HasBudget j
fresh-HasBudget j f =
    (omega (arith, f.tries), omega (arith, f.untried), λ s. omega (arith, f.tries, f.untried))

fresh-idle : (j : Job) → IsFresh j → is_running_job j ≡ false
fresh-idle j f = ground (arith, f.status)

module _ (env : Env) (run_id : RunId) (job_id : JobId) (plan : ExecutionPlan) (w : World)
    (valid : validate_plan plan ≡ []) (small : w.counter + length plan.jobs < u64_mod)
    (new : HasNewIds env run_id job_id plan w) (h : IsLive w.engine) where
  abbrev created : List JobId
  created = (materialize_plan (site_of env) run_id job_id plan w.counter w.engine.store).1

  abbrev planned_store : RunStore
  planned_store = (materialize_plan (site_of env) run_id job_id plan w.counter w.engine.store).0

  abbrev ready_ids : List JobId
  ready_ids = filter (λ k. is_some_and is_ready_job (get_job k planned_store)) created

  old :
      (k : JobId) → contains k created ≡ false → get_job k planned_store ≡ get_job k w.engine.store
  old =
      (materialize_plan-IsMaterialized (site_of env) run_id job_id plan w.counter w.engine.store
        valid small).0.others

  made :
      (k : JobId)
      → contains k created ≡ true
      → (j : Job) × (get_job k planned_store ≡ some j) × IsFresh j
  made = materialize_plan-new (site_of env) run_id job_id plan w.counter w.engine.store

  planned-queued :
      (k : JobId)
      → contains k (w.engine.ready_queue ++ ready_ids)
        ≡ is_some_and is_ready_job (get_job k planned_store)
  planned-queued k =
      let both = contains-append k w.engine.ready_queue ready_ids in
      let ready =
        contains-filter k (λ i. is_some_and is_ready_job (get_job i planned_store)) created in
      elim (Bool-cases (contains k created)) [
        | inl c ↦ ground (arith, both, ready, c, h.queued k, new k c)
        | inr c ↦ ground (arith, both, ready, c, h.queued k, old k c)
      ]

  planned-active :
      (k : JobId)
      → contains_key k w.engine.active_jobs ≡ is_some_and is_running_job (get_job k planned_store)
  planned-active k = elim (Bool-cases (contains k created)) [
    | inl c ↦
        let (j, stored, fresh) = made k c in
        ground (arith, c, h.active k, new k c, stored, fresh-idle j fresh)
    | inr c ↦ ground (arith, c, h.active k, old k c)
  ]

  planned-once : IsNodup (w.engine.ready_queue ++ ready_ids)
  planned-once =
      let all_new =
        (materialize_plan-IsMaterialized (site_of env) run_id job_id plan w.counter w.engine.store
          valid small).0.nodup in
      IsNodup-append w.engine.ready_queue ready_ids h.once
        (IsNodup-filter (λ k. is_some_and is_ready_job (get_job k planned_store)) created all_new)
        (λ k queued.
          let ready =
            contains-filter k (λ i. is_some_and is_ready_job (get_job i planned_store)) created in
          elim (Bool-cases (contains k created)) [
            | inl c ↦ ground (arith, queued, h.queued k, new k c)
            | inr c ↦ ground (arith, ready, c)
          ])

  planned-budget : (k : JobId) (j : Job) → get_job k planned_store ≡ some j → HasBudget j
  planned-budget k j e = elim (Bool-cases (contains k created)) [
    | inl c ↦
        let (i, stored, fresh) = made k c in
        let same : i ≡ j = ground (arith, stored, e) in
        subst HasBudget same (fresh-HasBudget i fresh)
    | inr c ↦ h.budget k j (ground (arith, old k c, e))
  ]

  pub planned-IsLive : IsLive (apply_plan env run_id job_id plan w).engine
  unfolding apply_plan
  planned-IsLive = record {
    bounded = own (
        keeps h.bounded _
          (materialize_plan-IsWellFormed (site_of env) run_id job_id plan w.counter w.engine.store
            h.bounded.store)
          refl refl refl);
    queued = planned-queued;
    active = planned-active;
    once = planned-once;
    budget = planned-budget;
  }
