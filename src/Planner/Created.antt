-- ===== src/Planner/Created.antt =====
-- src/orchestrator/planner.rs, `materialize_plan`: what the new jobs have in common.
use zeptopm.Base.{
  ℕ, ◌≡◌, refl, ◌∙◌, subst, arith, true, Bool-cases, ◌⊎◌, inl, inr, List, [], ◌∷◌, map, some, Map,
  contains, get-insert, is_empty,
}
use zeptopm.Types.{RunId, JobId, JobStatus, Job, PlannedJob, ExecutionPlan}
use zeptopm.Store.{RunStore, get_job, create_job}
use zeptopm.Planner.{
  Site, planned_job, real_id_of, translate, create_jobs, assign_ids, materialize_plan,
}
use zeptopm.Planner.Refinement.{job_of, created_ids, get-create_jobs-other, get-create_channels}

-- A job that has not been tried yet, and may be three times.
pub record IsFresh (j : Job) : Type 0 where
  pub status : (j.status ≡ JobStatus.ready) ⊎ (j.status ≡ JobStatus.pending)
  pub untried : j.attempt ≡ 0
  pub tries : j.max_attempts ≡ 3

module _ (site : Site) (run_id : RunId) (parent : JobId) where
  job_of-IsFresh : (m : Map JobId) (spec : PlannedJob) → IsFresh (job_of site run_id parent m spec)
  unfolding planned_job
  job_of-IsFresh m spec = record {
    status = elim (Bool-cases (is_empty (translate m spec.depends_on))) [
      | inl free ↦ inl (ground (arith, free))
      | inr bound ↦ inr (ground (arith, bound))
    ];
    untried = refl;
    tries = refl;
  }

  get-create_jobs-new :
      (m : Map JobId) (k : JobId) (specs : List PlannedJob) (s : RunStore)
      → contains k (map (real_id_of m) specs) ≡ true
      → (spec : PlannedJob) × (get_job k (create_jobs site run_id parent m specs s).0
          ≡ some (job_of site run_id parent m spec))
  unfolding create_jobs create_job contains planned_job
  get-create_jobs-new m k [] s h = cc
  get-create_jobs-new m k (spec ∷ specs) s h =
      let id = real_id_of m spec in
      let job = planned_job site run_id parent m id spec in
      elim (Bool-cases (contains k (map (real_id_of m) specs))) [
        | inl later ↦ get-create_jobs-new m k specs (create_job job s) later
        | inr last ↦ (
          spec,
          get-create_jobs-other site run_id parent m k specs (create_job job s) last
              ∙ get-insert k id job s.jobs
              ∙ ground (arith, h, last),
        )
      ]

  -- The job that the store holds under a new id.
  pub materialize_plan-new :
      (plan : ExecutionPlan) (n : ℕ) (s : RunStore) (k : JobId)
      → contains k (materialize_plan site run_id parent plan n s).1 ≡ true
      → (j : Job) × (get_job k (materialize_plan site run_id parent plan n s).0 ≡ some j)
        × IsFresh j
  unfolding materialize_plan
  materialize_plan-new plan n s k h =
      let m = (assign_ids site.now n plan.jobs []).0 in
      let (spec, stored) = get-create_jobs-new m k plan.jobs s (
        subst (λ (ids : List JobId). contains k ids ≡ true)
          (created_ids site run_id parent m plan.jobs s) h) in
      (
        job_of site run_id parent m spec,
        get-create_channels k run_id m plan.channels
              (create_jobs site run_id parent m plan.jobs s).0
            ∙ stored,
        job_of-IsFresh m spec,
      )
