-- ===== src/Planner/Validation.antt =====
-- src/orchestrator/planner.rs, `validate_plan`: a plan passes exactly when it is valid, stated
-- with no reference to the messages.
use zeptopm.Base.{
  ℕ, suc, String, ◌≡◌, refl, ◌≢◌, ◌↔◌, arith, Bool, true, false, ◌≤◌, List, [], ◌∷◌, ◌++◌, map,
  flat_map, All, length, contains, eq→str_eq, ne→str_eq, str_eq_comm, is_blank, IsNodup,
}
use zeptopm.Types.{turn_based, PlannedJob, PlannedChannel, ExecutionPlan}
use zeptopm.Planner.{
  push_if, dep_errors, job_errors, jobs_errors, duplicate_errors, participant_errors,
  channel_errors, channels_errors, local_ids_of, validate_plan,
}

-- A planned job names itself, its role, profile and instruction, and depends on other jobs of the
-- plan only.
abbrev pub IsValidJob : List String → PlannedJob → Type 0
IsValidJob local_ids j =
    (is_blank j.local_id ≡ false)
    × (is_blank j.role ≡ false)
    × (is_blank j.profile_id ≡ false)
    × (is_blank j.instruction ≡ false)
    × All (λ dep. (contains dep local_ids ≡ true) × (dep ≢ j.local_id)) j.depends_on

-- A planned channel has participants, all of the plan, and two of them if they take turns.
abbrev pub IsValidChannel : List String → PlannedChannel → Type 0
IsValidChannel local_ids ch =
    (ch.participants ≢ [])
    × (ch.mode ≡ turn_based → 2 ≤ length ch.participants)
    × All (λ p. contains p local_ids ≡ true) ch.participants

pub record IsValidPlan (plan : ExecutionPlan) : Type 0 where
  pub has_jobs : plan.jobs ≢ []
  pub jobs : All (IsValidJob (local_ids_of plan)) plan.jobs
  pub local_ids_nodup : IsNodup (local_ids_of plan)
  pub channels : All (IsValidChannel (local_ids_of plan)) plan.channels
  pub channel_ids_nodup : IsNodup (map (λ (c : PlannedChannel). c.channel_id) plan.channels)

pub append-eq-nil : (xs ys : List String) → (xs ++ ys ≡ []) ↔ ((xs ≡ []) × (ys ≡ []))
append-eq-nil [] ys = (λ e. (refl, e), λ e. e.1)
append-eq-nil (x ∷ xs) ys = (λ e. cc, λ e. cc e.0)

push_if-eq-nil : (b : Bool) (message : String) → (push_if b message ≡ []) ↔ (b ≡ false)
push_if-eq-nil true message = (λ e. cc, λ e. cc)
push_if-eq-nil false message = (λ e. refl, λ e. refl)

-- A loop that appends the errors of each element is silent exactly when each element is.
flat_map-eq-nil :
    {P : String → Type 0} (f : String → List String)
    → ((x : String) → (f x ≡ []) ↔ P x)
    → (xs : List String) → (flat_map f xs ≡ []) ↔ All P xs
flat_map-eq-nil f h [] = (λ e. tt, λ e. refl)
flat_map-eq-nil f h (x ∷ xs) =
    let split = append-eq-nil (f x) (flat_map f xs) in
    let rest = flat_map-eq-nil f h xs in
    (λ e. ((h x).0 (split.0 e).0, rest.0 (split.0 e).1), λ a. split.1 ((h x).1 a.0, rest.1 a.1))

dep_errors_iff :
    (ids : List String) (i : ℕ) (j : PlannedJob) (dep : String)
    → (dep_errors ids i j dep ≡ []) ↔ ((contains dep ids ≡ true) × (dep ≢ j.local_id))
unfolding dep_errors
dep_errors_iff ids i j dep = (
  λ e. (ground arith, λ d. ground (arith, eq→str_eq dep j.local_id d)),
  λ v. ground (arith, v.0, ne→str_eq dep j.local_id v.1),
)

job_errors_iff :
    (ids : List String) (i : ℕ) (j : PlannedJob) → (job_errors ids i j ≡ []) ↔ IsValidJob ids j
unfolding job_errors
job_errors_iff ids i j =
    let deps = flat_map-eq-nil (dep_errors ids i j) (dep_errors_iff ids i j) j.depends_on in
    (
      λ e. (ground arith, ground arith, ground arith, ground arith, deps.0 (ground arith)),
      λ v. ground (arith, v.0, v.1, v.2, v.3, deps.1 v.4),
    )

jobs_errors_iff :
    (ids : List String) (i : ℕ) (js : List PlannedJob)
    → (jobs_errors ids i js ≡ []) ↔ All (IsValidJob ids) js
unfolding jobs_errors
jobs_errors_iff ids i [] = (λ e. tt, λ e. refl)
jobs_errors_iff ids i (j ∷ js) =
    let split = append-eq-nil (job_errors ids i j) (jobs_errors ids (suc i) js) in
    let here = job_errors_iff ids i j in
    let rest = jobs_errors_iff ids (suc i) js in
    (λ e. (here.0 (split.0 e).0, rest.0 (split.0 e).1), λ a. split.1 (here.1 a.0, rest.1 a.1))

channel_errors_iff :
    (ids : List String) (i : ℕ) (ch : PlannedChannel)
    → (channel_errors ids i ch ≡ []) ↔ IsValidChannel ids ch
unfolding channel_errors
channel_errors_iff ids i ch =
    let members =
      flat_map-eq-nil {P = λ p. contains p ids ≡ true} (participant_errors ids i ch)
        (λ p. unfold participant_errors in (λ e. ground arith, λ v. ground (arith, v)))
        ch.participants in
    (
      λ e. (ground arith, λ t. ground arith, members.0 (ground arith)),
      λ v. ground (arith, v.0, v.1, members.1 v.2),
    )

-- No id repeats, and none is among those seen.
abbrev pub Fresh : List String → List String → Type 0
Fresh seen xs = IsNodup xs × All (λ x. contains x seen ≡ false) xs

unseen-cons :
    (seen : List String) (x : String) (xs : List String)
    → All (λ y. contains y (x ∷ seen) ≡ false) xs
      ↔ ((contains x xs ≡ false) × All (λ y. contains y seen ≡ false) xs)
unfolding contains
unseen-cons seen x [] = (λ a. (refl, tt), λ a. tt)
unseen-cons seen x (y ∷ ys) =
    let rest = unseen-cons seen x ys in
    (
      λ a.
          let (new, others) = rest.0 a.1 in
          (ground (arith, a.0, new, str_eq_comm x y), (ground (arith, a.0), others)),
      λ a. (ground (arith, a.0, a.1.0, str_eq_comm x y), rest.1 (ground (arith, a.0), a.1.1)),
    )

pub duplicate_errors_iff :
    (what : String) (seen xs : List String) → (duplicate_errors what seen xs ≡ []) ↔ Fresh seen xs
unfolding duplicate_errors
duplicate_errors_iff what seen [] = (λ e. (tt, tt), λ f. refl)
duplicate_errors_iff what seen (x ∷ xs) =
    let rest = duplicate_errors_iff what (x ∷ seen) xs in
    let unseen = unseen-cons seen x xs in
    (
      λ e.
          let (nodup, new) = rest.0 (ground arith) in
          let (apart, others) = unseen.0 new in ((apart, nodup), (ground arith, others)),
      λ f. ground (arith, f.1.0, rest.1 (f.0.1, unseen.1 (f.0.0, f.1.1))),
    )

channels_errors_iff :
    (ids : List String) (i : ℕ) (seen : List String) (chs : List PlannedChannel)
    → (channels_errors ids i seen chs ≡ [])
      ↔ (Fresh seen (map (λ (c : PlannedChannel). c.channel_id) chs) × All (IsValidChannel ids) chs)
unfolding channels_errors
channels_errors_iff ids i seen [] = (λ e. ((tt, tt), tt), λ f. refl)
channels_errors_iff ids i seen (ch ∷ chs) =
    let here = channel_errors_iff ids i ch in
    let rest = channels_errors_iff ids (suc i) (ch.channel_id ∷ seen) chs in
    let unseen = unseen-cons seen ch.channel_id (map (λ (c : PlannedChannel). c.channel_id) chs) in
    let split =
      append-eq-nil (channel_errors ids i ch)
        (channels_errors ids (suc i) (ch.channel_id ∷ seen) chs) in
    (
      λ e.
          let (mine, others) = split.0 (ground arith) in
          let ((nodup, new), valid) = rest.0 others in
          let (apart, old) = unseen.0 new in
          (((apart, nodup), (ground arith, old)), (here.0 mine, valid)),
      λ f. ground (
        arith,
        f.0.1.0,
        split.1 (here.1 f.1.0, rest.1 ((f.0.0.1, unseen.1 (f.0.0.0, f.0.1.1)), f.1.1)),
      ),
    )

pub Fresh-nil : (xs : List String) → All (λ x. contains x [] ≡ false) xs
unfolding contains
Fresh-nil [] = tt
Fresh-nil (x ∷ xs) = (refl, Fresh-nil xs)

-- `validate_plan` reports no error exactly when the plan is valid: it has jobs, each job fills in
-- its fields and depends on other jobs of the plan only, the local ids and the channel ids do not
-- repeat, and each channel has participants of the plan, at least two if it is turn-based.
pub validate_plan_iff : (plan : ExecutionPlan) → (validate_plan plan ≡ []) ↔ IsValidPlan plan
unfolding validate_plan
validate_plan_iff plan =
    let ids = local_ids_of plan in
    let jobs = jobs_errors_iff ids 0 plan.jobs in
    let names = duplicate_errors_iff "duplicate local_id: '" [] ids in
    let channels = channels_errors_iff ids 0 [] plan.channels in
    let split =
      append-eq-nil (jobs_errors ids 0 plan.jobs) (
        duplicate_errors "duplicate local_id: '" [] ids
        ++ channels_errors ids 0 [] plan.channels) in
    let split' =
      append-eq-nil (duplicate_errors "duplicate local_id: '" [] ids)
        (channels_errors ids 0 [] plan.channels) in
    (
      λ e.
          let parts = split.0 (ground arith) in
          let parts' = split'.0 parts.1 in
          let (fresh, valid) = channels.0 parts'.1 in
          record {
            has_jobs = λ z. ground arith;
            jobs = jobs.0 parts.0;
            local_ids_nodup = (names.0 parts'.0).0;
            channels = valid;
            channel_ids_nodup = fresh.0;
          },
      λ v.
          let silent = split.1 (
            jobs.1 v.jobs,
            split'.1 (
              names.1 (v.local_ids_nodup, Fresh-nil ids),
              channels.1 ((v.channel_ids_nodup, Fresh-nil _), v.channels),
            ),
          ) in
          ground (arith, silent, v.has_jobs),
    )
