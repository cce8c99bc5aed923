-- ===== src/Daemon/Closing.antt =====
-- src/daemon.rs: what becomes of the jobs of a channel that has closed: the last word of the worker,
-- the artifact made of the conversation, and the completion.
pub mod Bounds
use zeptopm.Base.{
  ℕ, String, Bool, true, false, not, ◌&&◌, if◌then◌else◌, Option, none, some, List, [], ◌∷◌, ◌++◌,
  map, any, first, is_empty, Map, get, remove, contains_key, str_eq, is_some_and, format, show_nat,
  flat_map, trim, take_chars, path_join, is_blank,
}
use zeptopm.Types.{
  JobId, ArtifactId, ChannelId, JobStatus, Job, Artifact, Channel, ChannelMessage, job_status_eq,
}
use zeptopm.Store.{get_job, get_channel, create_artifact, all_channels_for_job}
use zeptopm.Scheduler.{gen_id}
use zeptopm.Engine.{Engine, Env, mark_completed}
use zeptopm.Persistence.{debug_mode}
use zeptopm.Daemon.{worker_name}
use zeptopm.Daemon.World.{InternalAgent, World, Host, emit, persist_artifact}
use zeptopm.Daemon.Workers.{stop_worker}

-- The job with its channels, if it has any.
unfoldable pub collect_job_channels : World → JobId → Option (Job × List Channel)
collect_job_channels w job_id = elim (get_job job_id w.engine.store) [
  | none ↦ none
  | some job ↦
      let channels = all_channels_for_job job_id w.engine.store in
      if is_empty channels then none else some (job, channels)
]

abbrev heard : ChannelMessage → List String
heard msg = "\n- " ∷ msg.from_job ∷ " [round " ∷ show_nat msg.round ∷ "]: " ∷ msg.content ∷ []

abbrev overheard : Channel → List String
overheard channel =
    "\n\nChannel "
    ∷ channel.channel_id
    ∷ " ("
    ∷ debug_mode channel.mode
    ∷ "):"
    ∷ (if is_empty channel.history
        then "\n- No routed messages were captured." ∷ []
        else flat_map heard channel.history)

unfoldable pub build_channel_completion_prompt : Job → List Channel → String
build_channel_completion_prompt job channels = format (
    "You are finishing orchestrated job '"
    ∷ job.job_id
    ∷ "'.\nRole: "
    ∷ job.role
    ∷ "\nInstruction: "
    ∷ job.instruction
    ∷ "\n\nProduce the final best answer for your job based on the channel discussion. Respond only with the final deliverable content, not an explanation of your process."
    ∷ flat_map overheard channels)

abbrev minutes_of : ChannelMessage → List String
minutes_of msg =
    "\n### " ∷ msg.from_job ∷ " (round " ∷ show_nat msg.round ∷ ")\n" ∷ msg.content ∷ "\n" ∷ []

abbrev section_of : Channel → List String
section_of channel =
    "\n## Channel "
    ∷ channel.channel_id
    ∷ "\nMode: "
    ∷ debug_mode channel.mode
    ∷ "\n"
    ∷ (if is_empty channel.history
        then "\nNo routed messages were captured.\n" ∷ []
        else flat_map minutes_of channel.history)

abbrev opening : Option String → List String
opening none = []
opening (some final_response) = trim final_response ∷ "\n\n---\n\n" ∷ []

unfoldable pub build_channel_artifact_content : Job → List Channel → Option String → String
build_channel_artifact_content job channels final_response = format (
    opening final_response
    ++ "# Channel Output\n\nJob ID: "
      ∷ job.job_id
      ∷ "\nRole: "
      ∷ job.role
      ∷ "\nInstruction: "
      ∷ job.instruction
      ∷ "\n"
      ∷ flat_map section_of channels)

abbrev channel_artifact : Env → Job → String → ArtifactId → Artifact
channel_artifact env job content artifact_id = record {
  artifact_id = artifact_id;
  run_id = job.run_id;
  job_id = job.job_id;
  kind = "markdown";
  path = path_join job.workspace_dir "channel-output.md";
  summary = take_chars 200 content;
  created_at = env.system;
}

-- The artifact is made if its file can be written; the id is taken in any case.
unfoldable pub persist_channel_artifact :
    Env → Host → Job → String → World → World × List ArtifactId
persist_channel_artifact env host job content w =
    let (artifact_id, counter) = gen_id "art" env.system w.counter in
    let artifact = channel_artifact env job content artifact_id in
    let w' = record w { counter = counter } in
    if host.can_write artifact.path
    then (
      emit (persist_artifact artifact) (record w' {
        engine = record w.engine { store = create_artifact artifact w.engine.store };
      }),
      artifact_id ∷ [],
    )
    else (w', [])

unfoldable pub synthesize_channel_artifact :
    Env → Host → JobId → Option String → World → World × List ArtifactId
synthesize_channel_artifact env host job_id final_response w =
    elim (collect_job_channels w job_id) [
      | none ↦ (w, [])
      | some (job, channels) ↦
          persist_channel_artifact env host job
            (build_channel_artifact_content job channels final_response) w
    ]

-- The worker's answer in time, if it is not blank.
abbrev unless_blank : Option String → Option String
unless_blank none = none
unless_blank (some response) = if is_blank response then none else some response

abbrev asked : Host → String → Option InternalAgent → Option (Job × List Channel) → Option String
asked host name (some internal) (some (job, channels)) =
    if internal.supports_direct_chat
    then unless_blank (host.chat name (build_channel_completion_prompt job channels))
    else none
asked host name _ _ = none

abbrev still_talks : ChannelId → JobId → World → Bool
still_talks channel_id job_id w =
    any (λ (ch : Channel). not (str_eq ch.channel_id channel_id) && not ch.closed)
      (all_channels_for_job job_id w.engine.store)

abbrev runs : JobId → World → Bool
runs job_id w =
    is_some_and (λ (j : Job). job_status_eq j.status JobStatus.running)
      (get_job job_id w.engine.store)

unfoldable pub complete_participant : Env → Host → ChannelId → JobId → World → World
complete_participant env host channel_id job_id w =
    if runs job_id w && not (still_talks channel_id job_id w)
    then (let name = worker_name job_id in
        let final_response = asked host name (get name w.managed) (collect_job_channels w job_id) in
        let (w', artifact_ids) =
          synthesize_channel_artifact env host job_id final_response (stop_worker job_id w) in
        record w' { engine = mark_completed env job_id artifact_ids w'.engine })
    else w

unfoldable pub complete_participants : Env → Host → ChannelId → List JobId → World → World
complete_participants env host channel_id [] w = w
complete_participants env host channel_id (job_id ∷ job_ids) w =
    complete_participants env host channel_id job_ids
      (complete_participant env host channel_id job_id w)

unfoldable pub complete_closed_channel_participants : Env → Host → ChannelId → World → World
unfolding complete_participants complete_participant
complete_closed_channel_participants env host channel_id w =
    elim (get_channel channel_id w.engine.store) [
      | none ↦ w
      | some channel ↦ complete_participants env host channel_id channel.participants w
    ]
