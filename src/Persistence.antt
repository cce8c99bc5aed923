-- ===== src/Persistence.antt =====
-- src/orchestrator/sqlite_store.rs: the tables in which runs, jobs, artifacts and channels survive a
-- restart. Opening the file and creating the schema are not modelled. An `i64` column that holds a
-- `usize` is its 64-bit word. A method that writes returns the database and whether it was `Ok`.
pub mod Texts
pub mod Tables
pub mod Recovery
mod Tests
unfoldable pub use Texts.{
  parse_run_status, parse_job_status, parse_channel_mode, parse_peer_failure,
}
pub use Texts.*
use zeptopm.Base.{
  ℕ, ◌%◌, String, Bool, true, false, not, ◌==◌, if◌then◌else◌, Option, none, some, List, [], ◌∷◌,
  map, Map, map_option, unwrap_or, u64_mod,
}
use zeptopm.Types.{
  RunId, JobId, ArtifactId, ChannelId, Time, Run, Job, Artifact, Channel, ChannelMessage,
}
use zeptopm.Database.{TableOps, Codec}

pub record RunRow (c : Codec) : Type 0 where
  pub run_id : RunId
  pub task : String
  pub status : String
  pub created_at : c.F64
  pub updated_at : c.F64
  pub root_job_id : JobId
  pub final_artifact_ids : c.Json
  pub metadata : c.Json

pub record JobRow (c : Codec) : Type 0 where
  pub job_id : JobId
  pub run_id : RunId
  pub parent_job_id : Option JobId
  pub role : String
  pub status : String
  pub instruction : String
  pub input_artifact_ids : c.Json
  pub depends_on : c.Json
  pub children : c.Json
  pub profile_id : String
  pub workspace_dir : String
  pub attempt : ℕ
  pub max_attempts : ℕ
  pub revision_round : ℕ
  pub created_at : c.F64
  pub started_at : Option c.F64
  pub finished_at : Option c.F64
  pub output_artifact_ids : c.Json
  pub error : Option String

pub record ArtifactRow (c : Codec) : Type 0 where
  pub artifact_id : ArtifactId
  pub run_id : RunId
  pub job_id : JobId
  pub kind : String
  pub path : String
  pub summary : String
  pub created_at : c.F64

pub record ChannelRow (c : Codec) : Type 0 where
  pub channel_id : ChannelId
  pub run_id : RunId
  pub participants : c.Json
  pub mode : String
  pub max_rounds : Option ℕ
  pub on_peer_failure : String
  pub current_round : ℕ
  pub current_speaker_idx : ℕ
  pub active : ℕ
  pub closed : ℕ
  pub history : c.Json
  pub initial_message : Option String

-- The four tables of the file.
pub record Sql (c : Codec) : Type 1 where
  pub runs : TableOps (RunRow c)
  pub jobs : TableOps (JobRow c)
  pub artifacts : TableOps (ArtifactRow c)
  pub channels : TableOps (ChannelRow c)

pub record Db {c : Codec} (sql : Sql c) : Type 0 where
  pub runs : sql.runs.Table
  pub jobs : sql.jobs.Table
  pub artifacts : sql.artifacts.Table
  pub channels : sql.channels.Table

-- `b as i64`
abbrev pub as_i64 : Bool → ℕ
as_i64 true = 1
as_i64 false = 0

module _ (c : Codec) where
  abbrev pub to_epoch : Time → c.F64
  to_epoch t = c.as_secs_f64 t

  abbrev pub from_epoch : c.F64 → Time
  from_epoch epoch = c.from_secs_f64 epoch

  abbrev pub json_vec : List String → c.Json
  json_vec xs = unwrap_or (c.strings_to_json xs) c.empty

  abbrev pub parse_json_vec : c.Json → List String
  parse_json_vec s = unwrap_or (c.strings_from_json s) []

  abbrev pub parse_json_channel_messages : c.Json → List ChannelMessage
  parse_json_channel_messages s = unwrap_or (c.messages_from_json s) []

  abbrev pub parse_json_map : c.Json → Map String
  parse_json_map s = unwrap_or (c.map_from_json s) []

  unfoldable pub run_row : Run → RunRow c
  run_row run = record {
    run_id = run.run_id;
    task = run.task;
    status = debug_run_status run.status;
    created_at = to_epoch run.created_at;
    updated_at = to_epoch run.updated_at;
    root_job_id = run.root_job_id;
    final_artifact_ids = json_vec run.final_artifact_ids;
    metadata = unwrap_or (c.map_to_json run.metadata) c.empty;
  }

  unfoldable pub row_run : RunRow c → Run
  row_run row = record {
    run_id = row.run_id;
    task = row.task;
    status = parse_run_status row.status;
    created_at = from_epoch row.created_at;
    updated_at = from_epoch row.updated_at;
    root_job_id = row.root_job_id;
    final_artifact_ids = parse_json_vec row.final_artifact_ids;
    metadata = parse_json_map row.metadata;
  }

  unfoldable pub job_row : Job → JobRow c
  job_row job = record {
    job_id = job.job_id;
    run_id = job.run_id;
    parent_job_id = job.parent_job_id;
    role = job.role;
    status = debug_job_status job.status;
    instruction = job.instruction;
    input_artifact_ids = json_vec job.input_artifact_ids;
    depends_on = json_vec job.depends_on;
    children = json_vec job.children;
    profile_id = job.profile_id;
    workspace_dir = job.workspace_dir;
    attempt = job.attempt;
    max_attempts = job.max_attempts;
    revision_round = job.revision_round;
    created_at = to_epoch job.created_at;
    started_at = map_option to_epoch job.started_at;
    finished_at = map_option to_epoch job.finished_at;
    output_artifact_ids = json_vec job.output_artifact_ids;
    error = job.error;
  }

  unfoldable pub row_job : JobRow c → Job
  row_job row = record {
    job_id = row.job_id;
    run_id = row.run_id;
    parent_job_id = row.parent_job_id;
    role = row.role;
    status = parse_job_status row.status;
    instruction = row.instruction;
    input_artifact_ids = parse_json_vec row.input_artifact_ids;
    depends_on = parse_json_vec row.depends_on;
    children = parse_json_vec row.children;
    profile_id = row.profile_id;
    workspace_dir = row.workspace_dir;
    attempt = row.attempt;
    max_attempts = row.max_attempts;
    created_at = from_epoch row.created_at;
    started_at = map_option from_epoch row.started_at;
    finished_at = map_option from_epoch row.finished_at;
    output_artifact_ids = parse_json_vec row.output_artifact_ids;
    error = row.error;
    revision_round = row.revision_round;
  }

  unfoldable pub artifact_row : Artifact → ArtifactRow c
  artifact_row artifact = record {
    artifact_id = artifact.artifact_id;
    run_id = artifact.run_id;
    job_id = artifact.job_id;
    kind = artifact.kind;
    path = artifact.path;
    summary = artifact.summary;
    created_at = to_epoch artifact.created_at;
  }

  unfoldable pub row_artifact : ArtifactRow c → Artifact
  row_artifact row = record {
    artifact_id = row.artifact_id;
    run_id = row.run_id;
    job_id = row.job_id;
    kind = row.kind;
    path = row.path;
    summary = row.summary;
    created_at = from_epoch row.created_at;
  }

  unfoldable pub channel_row : Channel → ChannelRow c
  channel_row channel = record {
    channel_id = channel.channel_id;
    run_id = channel.run_id;
    participants = json_vec channel.participants;
    mode = debug_mode channel.mode;
    max_rounds = channel.max_rounds;
    on_peer_failure = debug_policy channel.on_peer_failure;
    current_round = channel.current_round;
    current_speaker_idx = channel.current_speaker_idx % u64_mod;
    active = as_i64 channel.active;
    closed = as_i64 channel.closed;
    history = unwrap_or (c.messages_to_json channel.history) c.empty;
    initial_message = channel.initial_message;
  }

  unfoldable pub row_channel : ChannelRow c → Channel
  row_channel row = record {
    channel_id = row.channel_id;
    run_id = row.run_id;
    participants = parse_json_vec row.participants;
    mode = parse_channel_mode row.mode;
    max_rounds = row.max_rounds;
    on_peer_failure = parse_peer_failure row.on_peer_failure;
    current_round = row.current_round;
    current_speaker_idx = row.current_speaker_idx % u64_mod;
    active = not (row.active == 0);
    closed = not (row.closed == 0);
    history = parse_json_channel_messages row.history;
    initial_message = row.initial_message;
  }
