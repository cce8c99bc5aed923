-- ===== src/Planner.antt =====
-- src/orchestrator/planner.rs: the validation of a plan and its translation into jobs and channels
-- of the store. The home directory, which the crate `dirs` finds, is an argument.
pub mod Validation
pub mod Materialize
pub mod Renaming
pub mod Refinement
pub mod Created
mod Tests
use zeptopm.Base.{
  ℕ, zero, suc, String, Bool, true, false, not, ◌||◌, ◌&&◌, if◌then◌else◌, ltb, Option, none, some,
  List, [], ◌∷◌, ◌++◌, map, flat_map, filter_map, is_empty, length, contains, str_eq, is_blank,
  path_join, Map, get, insert, unwrap_or, format, show_nat,
}
use zeptopm.Types.{
  RunId, JobId, Time, JobStatus, Job, Channel, ChannelMode, turn_based, PlannedJob, PlannedChannel,
  ExecutionPlan, channel_mode_eq,
}
use zeptopm.Store.{RunStore, create_job, create_channel}
use zeptopm.Scheduler.{gen_id}

-- `if test { errors.push(message) }`
abbrev pub push_if : Bool → String → List String
push_if true message = message ∷ []
push_if false message = []

dep_errors : List String → ℕ → PlannedJob → String → List String
dep_errors local_ids i job dep =
    push_if (not (contains dep local_ids)) (
      format (
        "job["
        ∷ show_nat i
        ∷ "] '"
        ∷ job.local_id
        ∷ "': depends_on '"
        ∷ dep
        ∷ "' not found in plan"
        ∷ []))
    ++ push_if (str_eq dep job.local_id)
        (format ("job[" ∷ show_nat i ∷ "] '" ∷ job.local_id ∷ "': depends on itself" ∷ []))

job_errors : List String → ℕ → PlannedJob → List String
unfolding dep_errors
job_errors local_ids i job =
    push_if (is_blank job.local_id) (format ("job[" ∷ show_nat i ∷ "]: local_id is empty" ∷ []))
    ++ (push_if (is_blank job.role)
          (format ("job[" ∷ show_nat i ∷ "] '" ∷ job.local_id ∷ "': role is empty" ∷ []))
        ++ (push_if (is_blank job.profile_id)
              (format ("job[" ∷ show_nat i ∷ "] '" ∷ job.local_id ∷ "': profile_id is empty" ∷ []))
            ++ (push_if (is_blank job.instruction) (
                  format
                    ("job[" ∷ show_nat i ∷ "] '" ∷ job.local_id ∷ "': instruction is empty" ∷ []))
                ++ flat_map (dep_errors local_ids i job) job.depends_on)))

jobs_errors : List String → ℕ → List PlannedJob → List String
jobs_errors local_ids i [] = []
jobs_errors local_ids i (job ∷ jobs) =
    job_errors local_ids i job ++ jobs_errors local_ids (suc i) jobs

-- `seen.insert(..)` is false on a name that was seen.
unfoldable pub duplicate_errors : String → List String → List String → List String
duplicate_errors what seen [] = []
duplicate_errors what seen (x ∷ xs) =
    push_if (contains x seen) (format (what ∷ x ∷ "'" ∷ [])) ++ duplicate_errors what (x ∷ seen) xs

participant_errors : List String → ℕ → PlannedChannel → String → List String
participant_errors local_ids i ch p = push_if (not (contains p local_ids)) (
    format (
      "channel["
      ∷ show_nat i
      ∷ "] '"
      ∷ ch.channel_id
      ∷ "': participant '"
      ∷ p
      ∷ "' not found in plan jobs"
      ∷ []))

channel_errors : List String → ℕ → PlannedChannel → List String
unfolding participant_errors
channel_errors local_ids i ch =
    push_if (is_empty ch.participants)
      (format ("channel[" ∷ show_nat i ∷ "] '" ∷ ch.channel_id ∷ "': no participants" ∷ []))
    ++ (push_if (channel_mode_eq ch.mode turn_based && ltb (length ch.participants) 2) (
          format (
            "channel["
            ∷ show_nat i
            ∷ "] '"
            ∷ ch.channel_id
            ∷ "': TurnBased requires at least 2 participants"
            ∷ []))
        ++ flat_map (participant_errors local_ids i ch) ch.participants)

-- The loop over the channels reports a repeated id before the other errors of the channel.
channels_errors : List String → ℕ → List String → List PlannedChannel → List String
channels_errors local_ids i seen [] = []
channels_errors local_ids i seen (ch ∷ chs) =
    push_if (contains ch.channel_id seen)
      (format ("duplicate channel_id: '" ∷ ch.channel_id ∷ "'" ∷ []))
    ++ (channel_errors local_ids i ch
        ++ channels_errors local_ids (suc i) (ch.channel_id ∷ seen) chs)

abbrev pub local_ids_of : ExecutionPlan → List String
local_ids_of plan = map (λ (j : PlannedJob). j.local_id) plan.jobs

-- The errors of a plan; a plan is valid if there are none.
unfoldable pub validate_plan : ExecutionPlan → List String
unfolding jobs_errors job_errors duplicate_errors channels_errors channel_errors
validate_plan plan =
    let local_ids = local_ids_of plan in
    if is_empty plan.jobs
    then "plan has no jobs" ∷ []
    else jobs_errors local_ids 0 plan.jobs
      ++ (duplicate_errors "duplicate local_id: '" [] local_ids
          ++ channels_errors local_ids 0 [] plan.channels)

unfoldable pub resolve_workspace : Option String → RunId → JobId → String
resolve_workspace home run_id job_id =
    path_join (path_join (path_join (path_join (unwrap_or home ".") ".zeptopm") "runs") run_id)
      job_id

-- What a materialization is given beside the plan: the home directory and the clock.
pub record Site : Type 0 where
  pub home : Option String
  pub now : Time

-- A real id for each local id; a repeated local id takes its last one.
pub assign_ids : Time → ℕ → List PlannedJob → Map JobId → Map JobId × ℕ
assign_ids now counter [] id_map = (id_map, counter)
assign_ids now counter (spec ∷ specs) id_map =
    let (real_id, counter') = gen_id "job" now counter in
    assign_ids now counter' specs (insert spec.local_id real_id id_map)

-- `filter_map(|local| id_map.get(local).cloned())`
abbrev pub translate : Map JobId → List String → List JobId
translate id_map = filter_map (λ local. get local id_map)

unfoldable pub planned_job : Site → RunId → JobId → Map JobId → JobId → PlannedJob → Job
planned_job site run_id parent_job_id id_map real_id spec = record {
  job_id = real_id;
  run_id = run_id;
  parent_job_id = some parent_job_id;
  role = spec.role;
  status =
      if is_empty (translate id_map spec.depends_on) then JobStatus.ready else JobStatus.pending;
  instruction = spec.instruction;
  input_artifact_ids = [];
  depends_on = translate id_map spec.depends_on;
  children = [];
  profile_id = spec.profile_id;
  workspace_dir = resolve_workspace site.home run_id real_id;
  attempt = 0;
  max_attempts = 3;
  created_at = site.now;
  started_at = none;
  finished_at = none;
  output_artifact_ids = [];
  error = none;
  revision_round = 0;
}

-- `id_map[&spec.local_id]`; the key is always there.
abbrev pub real_id_of : Map JobId → PlannedJob → JobId
real_id_of id_map spec = unwrap_or (get spec.local_id id_map) ""

pub create_jobs :
    Site → RunId → JobId → Map JobId → List PlannedJob → RunStore → RunStore × List JobId
create_jobs site run_id parent_job_id id_map [] s = (s, [])
create_jobs site run_id parent_job_id id_map (spec ∷ specs) s =
    let real_id = real_id_of id_map spec in
    let job = planned_job site run_id parent_job_id id_map real_id spec in
    let (s', created) = create_jobs site run_id parent_job_id id_map specs (create_job job s) in
    (s', real_id ∷ created)

unfoldable pub planned_channel : RunId → Map JobId → PlannedChannel → Channel
planned_channel run_id id_map planned_ch = record {
  channel_id = format (run_id ∷ ":" ∷ planned_ch.channel_id ∷ []);
  run_id = run_id;
  participants = translate id_map planned_ch.participants;
  mode = planned_ch.mode;
  max_rounds = planned_ch.max_rounds;
  on_peer_failure = planned_ch.on_peer_failure;
  current_round = 0;
  current_speaker_idx = 0;
  active = false;
  closed = false;
  history = [];
  initial_message = planned_ch.initial_message;
}

pub create_channels : RunId → Map JobId → List PlannedChannel → RunStore → RunStore
create_channels run_id id_map [] s = s
create_channels run_id id_map (ch ∷ chs) s =
    create_channels run_id id_map chs (create_channel (planned_channel run_id id_map ch) s)

-- The store with the plan's jobs and channels, the new job ids in plan order, and the id counter.
unfoldable pub materialize_plan :
    Site → RunId → JobId → ExecutionPlan → ℕ → RunStore → RunStore × List JobId × ℕ
unfolding assign_ids create_jobs create_channels
materialize_plan site run_id parent_job_id plan counter s =
    let (id_map, counter') = assign_ids site.now counter plan.jobs [] in
    let (s', created) = create_jobs site run_id parent_job_id id_map plan.jobs s in
    (create_channels run_id id_map plan.channels s', created, counter')
