-- ===== src/Planner/Refinement.antt =====
-- src/orchestrator/planner.rs, `materialize_plan`: each planned job becomes one job, under an id of
-- its own and with its dependencies renamed.
use zeptopm.Base.{
  ℕ, zero, suc, ◌+◌, ◌<◌, String, ◌≡◌, refl, sym, ap, subst, ◌∙◌, arith, true, false, if◌then◌else◌,
  Option, some, List, [], ◌∷◌, map, length, Map, get, values, contains, get-insert, get-insert_self,
  get_elem?, contains_key, All, ◌≢◌, Option-cases, inl, inr, unwrap_or, IsNodup, u64_mod, is_empty,
}
use zeptopm.Types.{RunId, JobId, JobStatus, Job, PlannedJob, PlannedChannel, ExecutionPlan}
use zeptopm.Store.{RunStore, get_job, create_job, create_channel}
use zeptopm.Planner.{
  Site, planned_job, real_id_of, translate, assign_ids, create_jobs, create_channels,
  materialize_plan, validate_plan, local_ids_of,
}
use zeptopm.Planner.Validation.{IsValidJob, validate_plan_iff}
use zeptopm.Planner.Renaming.{
  contains_key-renaming, renaming, renaming-IsNodup, counter-assign_ids, assign_ids-renaming,
  real_ids, translate_cong, real_ids_cong,
}

some-inj : {x y : PlannedJob} → some x ≡ some y → x ≡ y
some-inj e = cc

module _ (site : Site) (run_id : RunId) (parent : JobId) (m : Map JobId) where
  abbrev pub job_of : PlannedJob → Job
  job_of spec = planned_job site run_id parent m (real_id_of m spec) spec

  pub created_ids :
      (specs : List PlannedJob) (s : RunStore)
      → (create_jobs site run_id parent m specs s).1 ≡ map (real_id_of m) specs
  unfolding create_jobs
  created_ids [] s = refl
  created_ids (spec ∷ specs) s = ap (λ ids. real_id_of m spec ∷ ids) (created_ids specs _)

  pub get-create_jobs-other :
      (k : JobId) (specs : List PlannedJob) (s : RunStore)
      → contains k (map (real_id_of m) specs) ≡ false
      → get_job k (create_jobs site run_id parent m specs s).0 ≡ get_job k s
  unfolding create_jobs create_job contains planned_job
  get-create_jobs-other k [] s h = refl
  get-create_jobs-other k (spec ∷ specs) s h =
      let id = real_id_of m spec in
      let job = planned_job site run_id parent m id spec in
      get-create_jobs-other k specs (create_job job s) (ground (arith, h))
      ∙ get-insert k id job s.jobs
      ∙ ground (arith, h)

  get-create_jobs :
      (i : ℕ) (spec : PlannedJob) (specs : List PlannedJob) (s : RunStore)
      → IsNodup (map (real_id_of m) specs)
      → get_elem? specs i ≡ some spec
      → get_job (real_id_of m spec) (create_jobs site run_id parent m specs s).0
        ≡ some (job_of spec)
  unfolding create_jobs create_job planned_job
  get-create_jobs i spec [] s d e = cc
  get-create_jobs zero spec (x ∷ specs) s d e =
      let created =
        get-create_jobs-other (real_id_of m x) specs (create_job (job_of x) s) d.0
        ∙ get-insert_self (real_id_of m x) (job_of x) s.jobs in
      subst
        (λ (y : PlannedJob).
          get_job (real_id_of m y) (create_jobs site run_id parent m (x ∷ specs) s).0
          ≡ some (job_of y))
        (some-inj e) created
  get-create_jobs (suc i) spec (x ∷ specs) s d e = get-create_jobs i spec specs _ d.1 e

pub get-create_channels :
    (k run_id : String) (m : Map JobId) (chs : List PlannedChannel) (s : RunStore)
    → get_job k (create_channels run_id m chs s) ≡ get_job k s
unfolding create_channels create_channel
get-create_channels k run_id m [] s = refl
get-create_channels k run_id m (ch ∷ chs) s = get-create_channels k run_id m chs _

module _ (m r : Map JobId) (same : (k : String) → get k m ≡ get k r) where
  real_id_cong : (spec : PlannedJob) → real_id_of m spec ≡ real_id_of r spec
  real_id_cong spec = ap (λ id. unwrap_or id "") (same spec.local_id)

job_of_cong :
    (site : Site) (run_id : RunId) (parent : JobId) (m r : Map JobId)
    → ((k : String) → get k m ≡ get k r)
    → (spec : PlannedJob) → job_of site run_id parent m spec ≡ job_of site run_id parent r spec
unfolding planned_job
job_of_cong site run_id parent m r same spec =
    ground (arith, real_id_cong m r same spec, translate_cong m r same spec.depends_on)

-- The job that a planned job becomes under `id`: it waits for the jobs that the renaming gives for its
-- dependencies, one for one, and is ready if there are none.
pub record IsJobOf (run_id : RunId) (parent : JobId) (r : Map JobId) (id : JobId)
    (spec : PlannedJob) (j : Job) : Type 0 where
  pub named : j.job_id ≡ id
  pub belongs : (j.run_id ≡ run_id) × (j.parent_job_id ≡ some parent)
  pub does : (j.role ≡ spec.role) × (j.instruction ≡ spec.instruction)
  pub profile : j.profile_id ≡ spec.profile_id
  pub waits : map some j.depends_on ≡ map (λ dep. get dep r) spec.depends_on
  pub status : j.status ≡ (if is_empty spec.depends_on then JobStatus.ready else JobStatus.pending)

-- A materialization of a plan, with the ids counted from `n`: the renaming gives each planned job an
-- id of its own, under which its job is stored, and no other job of the store is touched.
pub record IsMaterialized (site : Site) (run_id : RunId) (parent : JobId) (plan : ExecutionPlan)
    (n : ℕ) (s s' : RunStore) (created : List JobId) : Type 0 where
  pub created_ids : created ≡ values (renaming site.now n plan.jobs)
  pub in_order : created ≡ map (real_id_of (renaming site.now n plan.jobs)) plan.jobs
  pub nodup : IsNodup created
  pub stored :
      (i : ℕ) (spec : PlannedJob)
      → get_elem? plan.jobs i ≡ some spec
      → let r = renaming site.now n plan.jobs in
        let id = real_id_of r spec in
        (j : Job) × (get_job id s' ≡ some j) × IsJobOf run_id parent r id spec j
  pub others : (k : JobId) → contains k created ≡ false → get_job k s' ≡ get_job k s

-- The dependencies of a job of a valid plan are all renamed.
translate-total :
    (ids : List String) (r : Map JobId)
    → ((k : String) → contains_key k r ≡ contains k ids)
    → (me : String) (deps : List String) → All (λ dep. (contains dep ids ≡ true) × (dep ≢ me)) deps
    → map some (translate r deps) ≡ map (λ dep. get dep r) deps
translate-total ids r known me [] h = refl
translate-total ids r known me (dep ∷ deps) h = elim (Option-cases (get dep r)) [
  | inl gone ↦ ground (arith, known dep, gone, h.0.0)
  | inr (id, found) ↦ ground (arith, found, translate-total ids r known me deps h.1)
]

at_index :
    (P : PlannedJob → Type 0) (i : ℕ) (spec : PlannedJob) (specs : List PlannedJob)
    → All P specs
    → get_elem? specs i ≡ some spec
    → P spec
at_index P i spec [] h e = cc
at_index P zero spec (x ∷ specs) h e = subst P (some-inj e) h.0
at_index P (suc i) spec (x ∷ specs) h e = at_index P i spec specs h.1 e

same-is_empty :
    (xs : List JobId) (f : String → Option JobId) (ys : List String)
    → map some xs ≡ map f ys
    → is_empty xs ≡ is_empty ys
same-is_empty [] f [] e = refl
same-is_empty [] f (y ∷ ys) e = cc
same-is_empty (x ∷ xs) f [] e = cc
same-is_empty (x ∷ xs) f (y ∷ ys) e = refl

job_of-IsJobOf :
    (site : Site) (run_id : RunId) (parent : JobId) (r : Map JobId) (spec : PlannedJob)
    → map some (translate r spec.depends_on) ≡ map (λ dep. get dep r) spec.depends_on
    → IsJobOf run_id parent r (real_id_of r spec) spec (job_of site run_id parent r spec)
unfolding planned_job
job_of-IsJobOf site run_id parent r spec total = record {
  named = refl;
  belongs = (refl, refl);
  does = (refl, refl);
  profile = refl;
  waits = total;
  status =
      ap (λ none. if none then JobStatus.ready else JobStatus.pending)
        (same-is_empty (translate r spec.depends_on) (λ dep. get dep r) spec.depends_on total);
}

-- A plan that passes `validate_plan`, and a counter that does not wrap around while the plan's jobs
-- are numbered: `materialize_plan` makes a materialization of it, and the counter has moved on by one
-- for each job.
pub materialize_plan-IsMaterialized :
    (site : Site) (run_id : RunId) (parent : JobId) (plan : ExecutionPlan) (n : ℕ) (s : RunStore)
    → validate_plan plan ≡ []
    → n + length plan.jobs < u64_mod
    → let (s', created, n') = materialize_plan site run_id parent plan n s in
      IsMaterialized site run_id parent plan n s s' created × (n' ≡ n + length plan.jobs)
unfolding materialize_plan
materialize_plan-IsMaterialized site run_id parent plan n s valid h =
    let v = (validate_plan_iff plan).0 valid in
    let m = (assign_ids site.now n plan.jobs []).0 in
    let r = renaming site.now n plan.jobs in
    let same : (k : String) → get k m ≡ get k r =
      λ k. assign_ids-renaming site.now n k plan.jobs h v.local_ids_nodup in
    let names = real_ids_cong m r same plan.jobs in
    let ids = names ∙ real_ids site.now n plan.jobs v.local_ids_nodup in
    let created = created_ids site run_id parent m plan.jobs s in
    let fresh = renaming-IsNodup site.now n plan.jobs (omega (arith, h)) in
    let s1 = (create_jobs site run_id parent m plan.jobs s).0 in
    (
      record {
        created_ids = created ∙ ids;
        in_order = created ∙ names;
        nodup = subst IsNodup (sym (created ∙ ids)) fresh;
        stored = λ i spec e. (
          job_of site run_id parent r spec,
          subst
              (λ (k : JobId).
                get_job k (create_channels run_id m plan.channels s1)
                ≡ some (job_of site run_id parent r spec))
              (real_id_cong m r same spec)
              (get-create_channels (real_id_of m spec) run_id m plan.channels s1
                ∙ get-create_jobs site run_id parent m i spec plan.jobs s
                    (subst IsNodup (sym ids) fresh) e
                ∙ ap some (job_of_cong site run_id parent m r same spec)),
          job_of-IsJobOf site run_id parent r spec (
              translate-total (local_ids_of plan) r
                (λ k. contains_key-renaming site.now n k plan.jobs) spec.local_id spec.depends_on
                (at_index (IsValidJob (local_ids_of plan)) i spec plan.jobs v.jobs e).4),
        );
        others = λ k apart.
            get-create_channels k run_id m plan.channels s1
            ∙ get-create_jobs-other site run_id parent m k plan.jobs s
                (subst (λ (ids' : List JobId). contains k ids' ≡ false) created apart);
      },
      counter-assign_ids site.now n plan.jobs [] h,
    )
