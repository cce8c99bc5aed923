-- ===== src/Scheduler/Frame.antt =====
-- src/orchestrator/scheduler.rs: what the promotion leaves alone, and the form of its list.
use zeptopm.Base.{
  ◌≡◌, refl, ap, ◌∙◌, arith, false, List, [], ◌∷◌, map, filter, all, values, contains, IsNodup,
  str_eq, Map, get, contains_key, is_some, IsIndexed, Bool-cases, inl, inr,
}
use zeptopm.Types.{RunId, JobId, Job}
use zeptopm.Store.{RunStore, get_job, modify_job, list_run_jobs}
use zeptopm.Store.Laws.{IsWellFormed, job_key, modify_job-IsWellFormed}
use zeptopm.Scheduler.{
  set_ready, is_complete, promote_one, promote_loop, pending_jobs, promote_unblocked_jobs,
}

abbrev pub SameButJobs : RunStore → RunStore → Type 0
SameButJobs s s' = (s'.runs ≡ s.runs) × (s'.artifacts ≡ s.artifacts) × (s'.channels ≡ s.channels)

promote_one-keeps :
    (s : RunStore) (k : JobId) (deps : List JobId)
    → IsWellFormed s
    → IsWellFormed (promote_one s (k, deps)).0 × SameButJobs s (promote_one s (k, deps)).0
unfolding promote_one
promote_one-keeps s k deps h =
    let done = modify_job-IsWellFormed h k set_ready (λ j. refl) in
    elim (Bool-cases (all (is_complete s) deps)) [
      | inr wait ↦ rw wait (h, (refl, refl, refl))
      | inl free ↦ elim (Bool-cases (is_some (get_job k s))) [
        | inr gone ↦ rw (free, gone) (h, (refl, refl, refl))
        | inl here ↦ rw (free, here) (done, unfold modify_job in (refl, refl, refl))
      ]
    ]

promote_loop-keeps :
    (ps : List (JobId × List JobId)) (s : RunStore)
    → IsWellFormed s
    → IsWellFormed (promote_loop s ps).0 × SameButJobs s (promote_loop s ps).0
unfolding promote_loop
promote_loop-keeps [] s h = (h, (refl, refl, refl))
promote_loop-keeps ((k, deps) ∷ ps) s h =
    let (h', same) = promote_one-keeps s k deps h in
    let (h'', same') = promote_loop-keeps ps (promote_one s (k, deps)).0 h' in
    (h'', (same'.0 ∙ same.0, same'.1 ∙ same.1, same'.2 ∙ same.2))

pub promote-keeps :
    (r : RunId) (s : RunStore)
    → IsWellFormed s
    → IsWellFormed (promote_unblocked_jobs r s).0 × SameButJobs s (promote_unblocked_jobs r s).0
unfolding promote_unblocked_jobs
promote-keeps r s h = promote_loop-keeps (pending_jobs (list_run_jobs r s)) s h

-- The ids that a loop promotes are among those that it goes through.
promote_loop-contains :
    (ps : List (JobId × List JobId)) (s : RunStore) (k : JobId)
    → contains k (map (λ p. p.0) ps) ≡ false
    → contains k (promote_loop s ps).1 ≡ false
unfolding promote_loop promote_one contains
promote_loop-contains [] s k h = refl
promote_loop-contains ((i, deps) ∷ ps) s k h =
    ground (arith, h, promote_loop-contains ps (promote_one s (i, deps)).0 k)

promote_loop-IsNodup :
    (ps : List (JobId × List JobId)) (s : RunStore)
    → IsNodup (map (λ p. p.0) ps)
    → IsNodup (promote_loop s ps).1
unfolding promote_loop promote_one
promote_loop-IsNodup [] s h = tt
promote_loop-IsNodup ((i, deps) ∷ ps) s h = ground (
  arith,
  promote_loop-IsNodup ps (promote_one s (i, deps)).0 h.1,
  promote_loop-contains ps (promote_one s (i, deps)).0 i h.0,
)

pending_jobs-IsNodup :
    (r : RunId) (m : Map Job)
    → IsIndexed job_key m
    → let pending = pending_jobs (filter (λ j. str_eq j.run_id r) (values m)) in
      IsNodup (map (λ p. p.0) pending)
      × ((k : JobId) → contains_key k m ≡ false → contains k (map (λ p. p.0) pending) ≡ false)
unfolding contains get
pending_jobs-IsNodup r [] h = (tt, λ k e. refl)
pending_jobs-IsNodup r ((i, w) ∷ m) h =
    let (rest, fresh) = pending_jobs-IsNodup r m (h.0.1, h.1.1) in
    let others = map (λ p. p.0) (pending_jobs (filter (λ j. str_eq j.run_id r) (values m))) in
    (
      ground (arith, rest, fresh i h.0.0, ap (λ t. contains t others) h.1.0),
      λ k e. ground (arith, e, fresh k, ap (λ t. str_eq t k) h.1.0),
    )

-- The promotion names no job twice.
pub promote-IsNodup :
    (r : RunId) (s : RunStore) → IsWellFormed s → IsNodup (promote_unblocked_jobs r s).1
unfolding promote_unblocked_jobs
promote-IsNodup r s h =
    promote_loop-IsNodup (pending_jobs (list_run_jobs r s)) s
      (pending_jobs-IsNodup r s.jobs h.jobs).0
