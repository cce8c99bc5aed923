-- ===== src/Scheduler/Promotion.antt =====
-- src/orchestrator/scheduler.rs, `promote_unblocked_jobs`: the loop that updates the store job by
-- job has the effect of one simultaneous update.
use zeptopm.Base.{
  ◌≡◌, refl, ap, ◌∙◌, arith, Bool, false, ◌&&◌, if◌then◌else◌, some, [], ◌∷◌, filter, values, all,
  all_cong, contains, contains_key, Map, str_eq, str_eq→eq, str_eq_refl, eq→str_eq, is_some,
  is_some_and, map_option, get, get-modify, modify, IsIndexed,
}
use zeptopm.Types.{RunId, JobId, JobStatus, Job, job_status_eq}
use zeptopm.Store.{RunStore, get_job, modify_job}
use zeptopm.Store.Laws.{IsWellFormed, job_key}
use zeptopm.Scheduler.{
  set_ready, is_complete, promote_one, promote_loop, pending_jobs, promote_unblocked_jobs,
}

-- A job that the promotion is to make ready: pending, of this run, its dependencies completed.
abbrev pub is_promotable : RunStore → RunId → Job → Bool
is_promotable s r j =
    str_eq j.run_id r
    && (job_status_eq j.status JobStatus.pending && all (is_complete s) j.depends_on)

-- The simultaneous update of one job.
abbrev pub promoted : RunStore → RunId → Job → Job
promoted s r j = if is_promotable s r j then set_ready j else j

-- Making a job ready that is not completed completes nothing and uncompletes nothing.
is_complete-set_ready :
    (s : RunStore) (k d : JobId)
    → is_complete s k ≡ false
    → is_complete (modify_job k set_ready s) d ≡ is_complete s d
unfolding modify_job
is_complete-set_ready s k d h = ground (arith, get-modify d k set_ready s.jobs, str_eq→eq k d)

-- A store that agrees with a part of the map agrees with the rest of it, ...
agree_tail :
    (i : JobId) (w : Job) (m : Map Job) (cur : RunStore)
    → contains_key i m ≡ false
    → ((k : JobId) (j : Job) → get k ((i, w) ∷ m) ≡ some j → get_job k cur ≡ some j)
    → (k : JobId) (j : Job) → get k m ≡ some j
    → get_job k cur ≡ some j
unfolding get
agree_tail i w m cur fresh found k j e = found k j (ground (arith, fresh, e, str_eq→eq i k))

-- ... also when the first job has been made ready.
agree_set_ready :
    (i : JobId) (w : Job) (m : Map Job) (cur : RunStore)
    → contains_key i m ≡ false
    → ((k : JobId) (j : Job) → get k ((i, w) ∷ m) ≡ some j → get_job k cur ≡ some j)
    → (k : JobId) (j : Job) → get k m ≡ some j
    → get_job k (modify_job i set_ready cur) ≡ some j
unfolding modify_job
agree_set_ready i w m cur fresh found k j e = ground (
  arith,
  agree_tail i w m cur fresh found k j e,
  get-modify k i set_ready cur.jobs,
  fresh,
  str_eq→eq i k,
)

module _ (s : RunStore) (r : RunId) where
  -- What the loop over a part `m` of the map, from `cur`, does to the job `k`.
  abbrev LoopOf : Map Job → RunStore → JobId → Type 0
  LoopOf m cur k =
      let out = promote_loop cur (pending_jobs (filter (λ j. str_eq j.run_id r) (values m))) in
      (get_job k out.0
        ≡ (if is_some (get k m) then map_option (promoted s r) (get k m) else get_job k cur))
      × (contains k out.1 ≡ is_some_and (is_promotable s r) (get k m))

  -- One round, if the rest of the loop does what it should from the store after it.
  LoopOf-cons :
      (i : JobId) (w : Job) (m : Map Job) (cur : RunStore) (k : JobId)
      → w.job_id ≡ i
      → contains_key i m ≡ false
      → get_job i cur ≡ some w
      → all (is_complete cur) w.depends_on ≡ all (is_complete s) w.depends_on
      → LoopOf m cur k
      → (is_complete cur i ≡ false → LoopOf m (modify_job i set_ready cur) k)
      → LoopOf ((i, w) ∷ m) cur k
  unfolding promote_loop promote_one contains get modify_job
  LoopOf-cons i w m cur k e fresh found same rest rest' = ground (
    arith,
    str_eq→eq i k,
    str_eq→eq w.job_id k,
    eq→str_eq w.job_id k,
    get-modify k i set_ready cur.jobs,
    ap (λ t. get t cur.jobs) e,
    ap (λ t. modify t set_ready cur.jobs) e,
    rest',
  )

  promote_loop_lem :
      (m : Map Job) (cur : RunStore)
      → IsIndexed job_key m
      → ((d : JobId) → is_complete cur d ≡ is_complete s d)
      → ((k : JobId) (j : Job) → get k m ≡ some j → get_job k cur ≡ some j)
      → (k : JobId) → LoopOf m cur k
  unfolding promote_loop contains get
  promote_loop_lem [] cur h same found k = (refl, refl)
  promote_loop_lem ((i, w) ∷ m) cur h same found k =
      let here : get_job i cur ≡ some w = found i w (rw (str_eq_refl i) refl) in
      LoopOf-cons i w m cur k h.1.0 h.0.0 here
        (all_cong (is_complete cur) (is_complete s) w.depends_on same)
        (promote_loop_lem m cur (h.0.1, h.1.1) same (agree_tail i w m cur h.0.0 found) k)
        λ open_job.
          promote_loop_lem m (modify_job i set_ready cur) (h.0.1, h.1.1)
            (λ d. is_complete-set_ready cur i d open_job ∙ same d)
            (agree_set_ready i w m cur h.0.0 found) k

  module _ (h : IsWellFormed s) (k : JobId) where
    -- In a well-formed store the promotion of a run makes ready exactly the jobs of the run that are
    -- pending and whose dependencies are all found and completed in the store before it; each
    -- lookup of any other job is unchanged, and no job appears or disappears.
    pub promote_exact :
        get_job k (promote_unblocked_jobs r s).0 ≡ map_option (promoted s r) (get_job k s)
    unfolding promote_unblocked_jobs
    promote_exact = ground (arith, promote_loop_lem s.jobs s h.jobs (λ d. refl) (λ j v e. e) k)

    -- The list that the promotion returns holds exactly the ids of those jobs.
    pub promote_lists :
        contains k (promote_unblocked_jobs r s).1 ≡ is_some_and (is_promotable s r) (get_job k s)
    unfolding promote_unblocked_jobs
    promote_lists = (promote_loop_lem s.jobs s h.jobs (λ d. refl) (λ j v e. e) k).1
