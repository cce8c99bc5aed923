-- ===== src/Engine/Review.antt =====
-- src/orchestrator/engine.rs, `handle_review_completion`, with src/orchestrator/review.rs's
-- `ReviewDecision`.
use zeptopm.Base.{
  ℕ, ◌+◌, ◌%◌, String, if◌then◌else◌, ltb, Option, none, some, [], ◌∷◌, ◌++◌, first, format,
  show_nat, u32_mod,
}
use zeptopm.Types.{JobId, JobStatus, Job}
use zeptopm.Store.{create_job, get_job}
use zeptopm.Scheduler.{gen_id}
use zeptopm.Planner.{resolve_workspace}
use zeptopm.Engine.{Engine, Env}

pub data ReviewDecision : Type 0 where
  approved : ReviewDecision
  revise : String → ReviewDecision
  rejected : String → ReviewDecision

-- The coder's job once more, with the reviewer's feedback in the instruction.
unfoldable pub revised_coder : Env → Job → Job → ℕ → ℕ → String → JobId → Job
revised_coder env reviewer coder new_round max_revisions feedback new_coder_id = record {
  job_id = new_coder_id;
  run_id = reviewer.run_id;
  parent_job_id = reviewer.parent_job_id;
  role = coder.role;
  status = JobStatus.ready;
  instruction = format (
      coder.instruction
      ∷ "\n\n--- Reviewer feedback (revision "
      ∷ show_nat new_round
      ∷ "/"
      ∷ show_nat max_revisions
      ∷ ") ---\n"
      ∷ feedback
      ∷ []);
  input_artifact_ids = coder.output_artifact_ids;
  depends_on = [];
  children = [];
  profile_id = coder.profile_id;
  workspace_dir = resolve_workspace env.home reviewer.run_id new_coder_id;
  attempt = 0;
  max_attempts = 3;
  created_at = env.system;
  started_at = none;
  finished_at = none;
  output_artifact_ids = [];
  error = none;
  revision_round = new_round;
}

unfoldable pub next_reviewer : Env → Job → ℕ → JobId → JobId → Job
next_reviewer env reviewer new_round new_coder_id new_reviewer_id = record {
  job_id = new_reviewer_id;
  run_id = reviewer.run_id;
  parent_job_id = reviewer.parent_job_id;
  role = reviewer.role;
  status = JobStatus.pending;
  instruction = reviewer.instruction;
  input_artifact_ids = [];
  depends_on = new_coder_id ∷ [];
  children = [];
  profile_id = reviewer.profile_id;
  workspace_dir = resolve_workspace env.home reviewer.run_id new_reviewer_id;
  attempt = 0;
  max_attempts = 3;
  created_at = env.system;
  started_at = none;
  finished_at = none;
  output_artifact_ids = [];
  error = none;
  revision_round = new_round;
}

-- The reviewer's job and the coder's job that it depends on, if both are found.
unfoldable pub reviewed_pair : JobId → Engine → Option (Job × Job)
reviewed_pair reviewer_job_id e = elim (get_job reviewer_job_id e.store) [
  | none ↦ none
  | some reviewer ↦ elim (first reviewer.depends_on) [
    | none ↦ none
    | some coder_job_id ↦ elim (get_job coder_job_id e.store) [
      | none ↦ none
      | some coder ↦ some (reviewer, coder)
    ]
  ]
]

unfoldable pub create_revision :
    Env → Job → Job → ℕ → ℕ → String → ℕ → Engine → Engine × Option (JobId × JobId) × ℕ
create_revision env reviewer coder new_round max_revisions feedback counter e =
    let (new_coder_id, counter') = gen_id "job" env.system counter in
    let (new_reviewer_id, counter'') = gen_id "job" env.system counter' in
    (
      record e {
        store = create_job (next_reviewer env reviewer new_round new_coder_id new_reviewer_id) (
            create_job
              (revised_coder env reviewer coder new_round max_revisions feedback new_coder_id)
              e.store);
        ready_queue = e.ready_queue ++ new_coder_id ∷ [];
      },
      some (new_coder_id, new_reviewer_id),
      counter'',
    )

abbrev pub next_round : Job → ℕ
next_round reviewer = (reviewer.revision_round + 1) % u32_mod

unfoldable pub revise_pair :
    Env → String → ℕ → ℕ → Engine → Option (Job × Job) → Engine × Option (JobId × JobId) × ℕ
revise_pair env feedback max_revisions counter e none = (e, none, counter)
revise_pair env feedback max_revisions counter e (some (reviewer, coder)) =
    if ltb max_revisions (next_round reviewer)
    then (e, none, counter)
    else create_revision env reviewer coder (next_round reviewer) max_revisions feedback counter e

-- A decision to revise makes a new coder job and a new reviewer job, up to the limit.
unfoldable pub handle_review_completion :
    Env → JobId → ReviewDecision → ℕ → ℕ → Engine → Engine × Option (JobId × JobId) × ℕ
unfolding revise_pair
handle_review_completion env reviewer_job_id (revise feedback) max_revisions counter e =
    revise_pair env feedback max_revisions counter e (reviewed_pair reviewer_job_id e)
handle_review_completion env reviewer_job_id approved max_revisions counter e = (e, none, counter)
handle_review_completion env reviewer_job_id (rejected reason) max_revisions counter e =
    (e, none, counter)
