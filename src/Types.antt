-- ===== src/Types.antt =====
-- src/orchestrator/types.rs: the runs, jobs, artifacts and channels of the orchestrator, and the
-- plan that a planner job writes. A `u32`, a `usize` and a time are natural numbers; the code
-- that adds to a `u32` keeps the wrap-around. A path is its text.
use zeptopm.Base.{ℕ, String, Bool, true, false, Option, List, Map}

abbrev pub RunId : Type 0
RunId = String

abbrev pub JobId : Type 0
JobId = String

abbrev pub ArtifactId : Type 0
ArtifactId = String

abbrev pub ChannelId : Type 0
ChannelId = String

-- A `SystemTime` or an `Instant`, in milliseconds from an origin of its own.
abbrev pub Time : Type 0
Time = ℕ

pub data RunStatus : Type 0 where
  pending running completed failed cancelled : RunStatus

pub data JobStatus : Type 0 where
  pending ready running completed failed cancelled : JobStatus

pub record Run : Type 0 where
  pub run_id : RunId
  pub task : String
  pub status : RunStatus
  pub created_at : Time
  pub updated_at : Time
  pub root_job_id : JobId
  pub final_artifact_ids : List ArtifactId
  pub metadata : Map String

pub record Job : Type 0 where
  pub job_id : JobId
  pub run_id : RunId
  pub parent_job_id : Option JobId
  pub role : String
  pub status : JobStatus
  pub instruction : String
  pub input_artifact_ids : List ArtifactId
  pub depends_on : List JobId
  pub children : List JobId
  pub profile_id : String
  pub workspace_dir : String
  pub attempt : ℕ
  pub max_attempts : ℕ
  pub created_at : Time
  pub started_at : Option Time
  pub finished_at : Option Time
  pub output_artifact_ids : List ArtifactId
  pub error : Option String
  pub revision_round : ℕ

pub record Artifact : Type 0 where
  pub artifact_id : ArtifactId
  pub run_id : RunId
  pub job_id : JobId
  pub kind : String
  pub path : String
  pub summary : String
  pub created_at : Time

pub data ChannelMode : Type 0 where
  turn_based stream : ChannelMode

pub data PeerFailure : Type 0 where
  kill_all continue : PeerFailure

pub record ChannelMessage : Type 0 where
  pub from_job : JobId
  pub content : String
  pub timestamp : Time
  pub round : ℕ

pub record Channel : Type 0 where
  pub channel_id : ChannelId
  pub run_id : RunId
  pub participants : List JobId
  pub mode : ChannelMode
  pub max_rounds : Option ℕ
  pub on_peer_failure : PeerFailure
  pub current_round : ℕ
  pub current_speaker_idx : ℕ
  pub active : Bool
  pub closed : Bool
  pub history : List ChannelMessage
  pub initial_message : Option String

pub record PlannedChannel : Type 0 where
  pub channel_id : String
  pub participants : List String
  pub mode : ChannelMode
  pub max_rounds : Option ℕ
  pub on_peer_failure : PeerFailure
  pub initial_message : Option String

pub data ChannelAction : Type 0 where
  send_to : JobId → String → ChannelAction
  broadcast : List JobId → String → ChannelAction
  close : ChannelId → ChannelAction
  kill_participants : List JobId → ChannelAction
  notify_peers : List JobId → String → ChannelAction
  no_op : ChannelAction

pub record PlannedJob : Type 0 where
  pub local_id : String
  pub role : String
  pub profile_id : String
  pub instruction : String
  pub depends_on : List String

-- Planner output: a list of jobs to create.
pub record ExecutionPlan : Type 0 where
  pub jobs : List PlannedJob
  pub channels : List PlannedChannel

-- `==` on the derived `PartialEq` of the enums.
abbrev pub job_status_eq : JobStatus → JobStatus → Bool
job_status_eq JobStatus.pending JobStatus.pending = true
job_status_eq JobStatus.ready JobStatus.ready = true
job_status_eq JobStatus.running JobStatus.running = true
job_status_eq JobStatus.completed JobStatus.completed = true
job_status_eq JobStatus.failed JobStatus.failed = true
job_status_eq JobStatus.cancelled JobStatus.cancelled = true
job_status_eq _ _ = false

abbrev pub run_status_eq : RunStatus → RunStatus → Bool
run_status_eq RunStatus.pending RunStatus.pending = true
run_status_eq RunStatus.running RunStatus.running = true
run_status_eq RunStatus.completed RunStatus.completed = true
run_status_eq RunStatus.failed RunStatus.failed = true
run_status_eq RunStatus.cancelled RunStatus.cancelled = true
run_status_eq _ _ = false

abbrev pub channel_mode_eq : ChannelMode → ChannelMode → Bool
channel_mode_eq turn_based turn_based = true
channel_mode_eq stream stream = true
channel_mode_eq _ _ = false
