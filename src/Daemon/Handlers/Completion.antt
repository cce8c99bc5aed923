-- ===== src/Daemon/Handlers/Completion.antt =====
-- src/daemon.rs, the event `job_completed`: the plan of a planner and the decision of a reviewer keep
-- the engine bounded.
use zeptopm.Base.{
  ℕ, suc, String, refl, Option, none, some, List, length, is_empty, Bool-cases, Option-cases, inl,
  inr, ◌⊎◌, remove, map_option,
}
use zeptopm.Types.{RunId, JobId, ArtifactId, ExecutionPlan}
use zeptopm.Planner.{validate_plan}
use zeptopm.Planner.Materialize.{materialize_plan-IsWellFormed}
use zeptopm.Engine.{Env, mark_completed}
use zeptopm.Engine.Review.{ReviewDecision}
use zeptopm.Engine.Calls.{complete, review, step}
use zeptopm.Engine.Bounds.{IsBounded, step-IsBounded, keeps, mark_failed-IsBounded}
use zeptopm.Json.{Json, str_or_empty, get_texts}
use zeptopm.Daemon.{worker_name}
use zeptopm.Review.{extract_json, parse_review_decision}
use zeptopm.Daemon.World.{World, Host}
use zeptopm.Daemon.Workers.Spawning.{spawn_ready-IsBounded, activate_channels-IsBounded}
use zeptopm.Daemon.Handlers.{
  settle, apply_plan, take_plan, first_artifact, file_of, planner_done, outputs_of, apply_review,
  reviewer_done, when, then_review, on_job_completed, has_role, run_of_job,
}

abbrev pub Bounded : ℕ → World → Type 0
Bounded limit w = IsBounded limit w.engine

-- A handler that does not panic leaves a bounded engine.
abbrev pub BoundedIf : ℕ → Option World → Type 0
BoundedIf limit none = Unit {0}
BoundedIf limit (some w) = Bounded limit w

pub settle-Bounded :
    {limit : ℕ} (env : Env) (host : Host) (run_id : RunId) (w : World)
    → Bounded limit w
    → Bounded limit (settle env host run_id w)
unfolding settle
settle-Bounded env host run_id w h =
    activate_channels-IsBounded _
      (spawn_ready-IsBounded (suc (length w.engine.ready_queue)) env host w h)

apply_plan-Bounded :
    {limit : ℕ} (env : Env) (run_id : RunId) (job_id : JobId) (plan : ExecutionPlan) (w : World)
    → Bounded limit w
    → Bounded limit (apply_plan env run_id job_id plan w)
unfolding apply_plan
apply_plan-Bounded env run_id job_id plan w h =
    keeps h _ (materialize_plan-IsWellFormed _ run_id job_id plan w.counter w.engine.store h.store)
      refl refl refl

take_plan-Bounded :
    {limit : ℕ} (env : Env) (run_id : RunId) (job_id : JobId) (parsed : String ⊎ ExecutionPlan)
    (w : World)
    → Bounded limit w
    → Bounded limit (take_plan env run_id job_id parsed w)
unfolding take_plan
take_plan-Bounded env run_id job_id (inl error) w h = mark_failed-IsBounded env job_id _ h
take_plan-Bounded env run_id job_id (inr plan) w h =
    elim (Bool-cases (is_empty (validate_plan plan))) [
      | inl e ↦ rw (take_plan, e) (apply_plan-Bounded env run_id job_id plan w h)
      | inr e ↦ rw (take_plan, e) (mark_failed-IsBounded env job_id _ h)
    ]

planner_done-Bounded :
    {limit : ℕ} (env : Env) (host : Host) (run_id : RunId) (job_id : JobId) (ids : List ArtifactId)
    (w : World)
    → Bounded limit w
    → BoundedIf limit (planner_done env host run_id job_id ids w)
unfolding planner_done
planner_done-Bounded env host run_id job_id ids w h = elim (Option-cases (first_artifact ids w)) [
  | inl gone ↦ rw (planner_done, gone) h
  | inr (a, found) ↦ elim (Option-cases (extract_json (file_of host a))) [
    | inl panic ↦ rw (planner_done, found, panic) tt
    | inr (json_str, block) ↦
        rw (planner_done, found, block)
          (take_plan-Bounded env run_id job_id (host.parse_plan json_str) w h)
  ]
]

apply_review-Bounded :
    {limit : ℕ} (env : Env) (job_id : JobId) (d : ReviewDecision) (w : World)
    → Bounded limit w
    → Bounded limit (apply_review env job_id d w)
unfolding apply_review step
apply_review-Bounded env job_id d w h =
    step-IsBounded (env, review job_id d w.config.daemon.max_revisions) (w.engine, w.counter) h

reviewer_done-Bounded :
    {limit : ℕ} (env : Env) (host : Host) (job_id : JobId) (w : World)
    → Bounded limit w
    → BoundedIf limit (reviewer_done env host job_id w)
unfolding reviewer_done
reviewer_done-Bounded env host job_id w h =
    elim (Option-cases (first_artifact (outputs_of job_id w) w)) [
      | inl gone ↦ rw (reviewer_done, gone) h
      | inr (a, found) ↦ elim (Option-cases (parse_review_decision host.texts (file_of host a))) [
        | inl panic ↦ rw (reviewer_done, found, panic) tt
        | inr (d, decided) ↦
            rw (reviewer_done, found, decided) (apply_review-Bounded env job_id d w h)
      ]
    ]

then_review-Bounded :
    (limit : ℕ) (env : Env) (host : Host) (run_id : RunId) (job_id : JobId) (o : Option World)
    → BoundedIf limit o
    → BoundedIf limit (then_review env host run_id job_id o)
then_review-Bounded limit env host run_id job_id none h = tt
then_review-Bounded limit env host run_id job_id (some w) h =
    elim (Bool-cases (has_role "reviewer" job_id w)) [
      | inr other ↦ rw other (settle-Bounded env host run_id w h)
      | inl e ↦ rw e (settled _ (reviewer_done-Bounded env host job_id w h))
    ]
  where
    settled :
        (o : Option World)
        → BoundedIf limit o
        → BoundedIf limit (map_option (settle env host run_id) o)
    settled none b = tt
    settled (some w') b = settle-Bounded env host run_id w' b

pub completed-Bounded :
    {limit : ℕ} (env : Env) (host : Host) (event : Json) (w : World)
    → Bounded limit w
    → BoundedIf limit (on_job_completed env host event w)
unfolding on_job_completed step
completed-Bounded {limit} env host event w h =
    let job_id = str_or_empty "job_id" event in
    let artifacts = get_texts "output_artifact_ids" event in
    let run_id = run_of_job job_id w in
    let w' : World = record w {
      managed = remove (worker_name job_id) w.managed;
      engine = mark_completed env job_id artifacts w.engine;
    } in
    let h' = step-IsBounded (env, complete job_id artifacts) (w.engine, 0) h in
    then_review-Bounded limit env host run_id job_id
      (when (has_role "planner" job_id w) (planner_done env host run_id job_id artifacts) w')
      (elim (Bool-cases (has_role "planner" job_id w)) [
        | inl e ↦ rw e (planner_done-Bounded env host run_id job_id artifacts w' h')
        | inr e ↦ rw e h'
      ])
