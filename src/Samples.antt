-- ===== src/Samples.antt =====
-- Small concrete values on which the theorems are applied.
use zeptopm.Base.{◌≡◌, refl, get, str_eq, true, false, none, some, List, [], ◌∷◌}
use zeptopm.Types.{
  JobId, RunStatus, JobStatus, Run, Job, Artifact, Channel, turn_based, kill_all, ExecutionPlan,
}
use zeptopm.Store.{RunStore}
use zeptopm.Store.Laws.{IsWellFormed}
use zeptopm.Engine.{Engine, Env}

abbrev pub a_job : JobId → JobStatus → List JobId → Job
a_job id status deps = record {
  job_id = id;
  run_id = "r";
  parent_job_id = none;
  role = "coder";
  status = status;
  instruction = "work";
  input_artifact_ids = [];
  depends_on = deps;
  children = [];
  profile_id = "coder";
  workspace_dir = "/tmp";
  attempt = 0;
  max_attempts = 3;
  created_at = 1;
  started_at = none;
  finished_at = none;
  output_artifact_ids = [];
  error = none;
  revision_round = 0;
}

abbrev pub a_run : Run
a_run = record {
  run_id = "r";
  task = "task";
  status = RunStatus.running;
  created_at = 1;
  updated_at = 1;
  root_job_id = "a";
  final_artifact_ids = [];
  metadata = [];
}

abbrev pub an_artifact : Artifact
an_artifact = record {
  artifact_id = "x";
  run_id = "r";
  job_id = "a";
  kind = "text";
  path = "/tmp/x";
  summary = "s";
  created_at = 1;
}

-- Two rounds between the jobs `a` and `b`.
abbrev pub a_channel : Channel
a_channel = record {
  channel_id = "r:c";
  run_id = "r";
  participants = "a" ∷ "b" ∷ [];
  mode = turn_based;
  max_rounds = some 2;
  on_peer_failure = kill_all;
  current_round = 0;
  current_speaker_idx = 0;
  active = false;
  closed = false;
  history = [];
  initial_message = none;
}

abbrev pub open_channel : Channel
open_channel = record a_channel { active = true }

-- A run with the jobs `a` and `b` of the given statuses, of which `b` depends on `a`.
abbrev pub a_store : JobStatus → JobStatus → Channel → RunStore
a_store first second ch = record {
  runs = ("r", a_run) ∷ [];
  jobs = ("a", a_job "a" first []) ∷ ("b", a_job "b" second ("a" ∷ [])) ∷ [];
  artifacts = ("x", an_artifact) ∷ [];
  channels = ("r:c", ch) ∷ [];
}

abbrev pub an_env : Env
an_env = record { system = 7; instant = 7; home = some "/root" }

abbrev pub an_engine : RunStore → List JobId → Engine
an_engine s queue = record {
  store = s;
  ready_queue = queue;
  max_concurrency = 2;
  active_jobs = ("b", "r") ∷ [];
  last_heartbeat = [];
}

abbrev pub a_plan : ExecutionPlan
a_plan = record {
  jobs =
      record {
        local_id = "w";
        role = "writer";
        profile_id = "writer";
        instruction = "Write";
        depends_on = [];
      }
      ∷ record {
        local_id = "v";
        role = "reviewer";
        profile_id = "reviewer";
        instruction = "Review";
        depends_on = "w" ∷ [];
      }
      ∷ [];
  channels =
      record {
        channel_id = "c";
        participants = "w" ∷ "v" ∷ [];
        mode = turn_based;
        max_rounds = some 2;
        on_peer_failure = kill_all;
        initial_message = none;
      }
      ∷ [];
}

pub a_store-IsWellFormed :
    (first second : JobStatus) (ch : Channel)
    → ch.channel_id ≡ "r:c"
    → IsWellFormed (a_store first second ch)
unfolding get str_eq
a_store-IsWellFormed first second ch e = record {
  runs = ((refl, tt), (refl, tt));
  jobs = ((refl, (refl, tt)), (refl, (refl, tt)));
  artifacts = ((refl, tt), (refl, tt));
  channels = ((refl, tt), (e, tt));
}
