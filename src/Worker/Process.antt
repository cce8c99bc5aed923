-- ===== src/Worker/Process.antt =====
-- src/worker.rs: the process that runs one agent, from its start to its end. The agent is of the crate
-- `zeptoclaw`, whose messages are the type `M`: what it answers to a line of the standard input, and
-- its history then, come with the line. What the process does is a list in the order of time.
pub mod Requests
use zeptopm.Base.{
  ℕ, zero, suc, String, Bool, true, false, not, if◌then◌else◌, Option, none, some, List, [], ◌∷◌,
  ◌++◌, filter_map, flat_map, get, length, str_eq, unwrap_or, map_option, format, show_nat,
  take_chars, is_empty, ◌⊎◌, inl, inr,
}
use zeptopm.Types.{JobId}
use zeptopm.Json.{Json, Field, text, array, flag, number, get_str, str_or_empty, get_texts}
use zeptopm.Config.{AgentConfig, Config}
use zeptopm.Config.Files
use zeptopm.Config.Files.{ConfigError, show_config_error, Provider, create_provider, session_file}
use zeptopm.Daemon.World.{find_agent}
use zeptopm.Worker.{truncate_history}

-- A line of JSON on the standard output, or something done with files.
pub data Output (M : Type 0) : Type 0 where
  message : Json → Output M
  save_history : String → List M → Output M
  create_dir_all : String → Output M
  write : String → String → Output M

-- A line of the standard input, `none` if it is no JSON; the heartbeats that are sent while the agent
-- is at work on it, what it answers to a message, an error (`inl`) or a text, and its history then; and the
-- files.
pub record Line (M : Type 0) : Type 0 where
  pub cmd : Option Json
  pub ticks : ℕ
  pub chat : String → String ⊎ String
  pub history : List M
  pub read_to_string : String → Option String

-- What the process keeps for its loop.
pub record Session : Type 0 where
  pub session_file : Option String
  pub max_history : Option ℕ

abbrev pub repeat : {A : Type 0} → ℕ → A → List A
repeat zero a = []
repeat (suc n) a = a ∷ repeat n a

abbrev pub percent_field : Option ℕ → Json
percent_field none = []
percent_field (some p) = ("percent", number p) ∷ []

-- The instruction with the artifacts that can be read.
unfoldable pub context : (String → Option String) → String → List String → String
context read so_far [] = so_far
context read so_far (path ∷ paths) =
    context read
      (elim (read path) [
        | none ↦ so_far
        | some content ↦ format (so_far ∷ "\n\n--- Input from previous step ---\n" ∷ content ∷ [])
      ])
      paths

abbrev pub artifact_id_of : JobId → String
artifact_id_of job_id = format ("art_" ∷ job_id ∷ [])

module _ {M : Type 0} where
  abbrev pub send_status : String → Output M
  send_status status = message (("type", text "status") ∷ ("status", text status) ∷ [])

  abbrev pub send_error : String → Output M
  send_error e =
      message (("type", text "status") ∷ ("status", text "error") ∷ ("error", text e) ∷ [])

  abbrev pub send_log : String → String → Output M
  send_log level text' =
      message (("type", text "log") ∷ ("level", text level) ∷ ("message", text text') ∷ [])

  abbrev pub send_heartbeat : JobId → String → Output M
  send_heartbeat job_id phase =
      message (("type", text "heartbeat") ∷ ("job_id", text job_id) ∷ ("phase", text phase) ∷ [])

  abbrev pub send_progress : JobId → String → String → Option ℕ → Output M
  send_progress job_id phase text' percent = message (
      ("type", text "progress")
      ∷ ("job_id", text job_id)
      ∷ ("phase", text phase)
      ∷ ("message", text text')
      ∷ percent_field percent)

  abbrev pub heartbeats : Option JobId → ℕ → List (Output M)
  heartbeats none n = []
  heartbeats (some job_id) n = repeat n (send_heartbeat job_id "running")

  -- The answer to `chat`, with its log.
  abbrev pub chat_response : String → String ⊎ String → List (Output M)
  chat_response id (inr response) =
      message (("type", text "chat_response") ∷ ("id", text id) ∷ ("response", text response) ∷ [])
      ∷ send_log "info" "response delivered"
      ∷ []
  chat_response id (inl e) =
      message (("type", text "chat_response") ∷ ("id", text id) ∷ ("error", text e) ∷ [])
      ∷ send_log "error" (format ("chat failed: " ∷ e ∷ []))
      ∷ []

  abbrev pub saved : Session → List M → List (Output M)
  saved s history = elim s.session_file [
    | none ↦ []
    | some path ↦ save_history path (truncate_history history s.max_history) ∷ []
  ]

  unfoldable pub on_chat : Session → Line M → Json → List (Output M)
  on_chat s l cmd =
      let id = unwrap_or (get_str "id" cmd) "0" in
      send_status "running"
        ∷ send_log "info" "processing message"
        ∷ heartbeats (get_str "job_id" cmd) l.ticks
      ++ (chat_response id (l.chat (str_or_empty "message" cmd))
          ++ (saved s l.history ++ send_status "idle" ∷ []))

  -- The end of a job, in its workspace.
  abbrev pub job_ended : JobId → String → String ⊎ String → List (Output M)
  job_ended job_id workspace (inr response) =
      let artifact_path = format (workspace ∷ "/output.md" ∷ []) in
      send_progress job_id "writing_artifact" "Writing output artifact" (some 90)
      ∷ write artifact_path response
      ∷ message (
          ("type", text "artifact_produced")
          ∷ ("job_id", text job_id)
          ∷ ("artifact_id", text (artifact_id_of job_id))
          ∷ ("kind", text "markdown")
          ∷ ("path", text artifact_path)
          ∷ ("summary", text (take_chars 200 response))
          ∷ [])
      ∷ message (
          ("type", text "job_completed")
          ∷ ("job_id", text job_id)
          ∷ ("output_artifact_ids", array (some (artifact_id_of job_id) ∷ []))
          ∷ [])
      ∷ send_log "info" (format ("job " ∷ job_id ∷ " completed" ∷ []))
      ∷ []
  job_ended job_id workspace (inl e) =
      message (
        ("type", text "job_failed")
        ∷ ("job_id", text job_id)
        ∷ ("error", text e)
        ∷ ("retryable", flag true)
        ∷ [])
      ∷ send_log "error" (format ("job " ∷ job_id ∷ " failed: " ∷ e ∷ []))
      ∷ []

  unfoldable pub on_job_execute : Line M → Json → List (Output M)
  on_job_execute l cmd =
      let job_id = str_or_empty "job_id" cmd in
      let workspace = unwrap_or (get_str "workspace" cmd) "/tmp" in
      let prompt =
        context l.read_to_string (str_or_empty "instruction" cmd)
          (get_texts "input_artifacts" cmd) in
      send_status "running"
        ∷ send_log "info" (format ("executing job " ∷ job_id ∷ []))
        ∷ send_progress job_id "preparing" "Building context from input artifacts" none
        ∷ create_dir_all workspace
        ∷ send_progress job_id "llm_call" "Sending request to LLM" none
        ∷ heartbeats (some job_id) l.ticks
      ++ (job_ended job_id workspace (l.chat prompt) ++ send_status "idle" ∷ [])

  abbrev pub saved_log : Session → List M → List (Output M)
  saved_log s history = elim s.session_file [
    | none ↦ []
    | some path ↦
        let kept = truncate_history history s.max_history in
        save_history path kept
        ∷ send_log "info" (format ("session saved (" ∷ show_nat (length kept) ∷ " messages)" ∷ []))
        ∷ []
  ]

  unfoldable pub on_stop : Session → Line M → List (Output M)
  on_stop s l =
      saved_log s l.history ++ send_log "info" "stop received" ∷ send_status "stopped" ∷ []

  -- What is done with a line.
  unfoldable pub on_line : Session → Line M → List (Output M)
  unfolding on_chat on_job_execute on_stop
  on_line s l = elim l.cmd [
    | none ↦ []
    | some cmd ↦
        let name = str_or_empty "cmd" cmd in
        if str_eq name "chat"
        then on_chat s l cmd
        else if str_eq name "job_execute"
        then on_job_execute l cmd
        else if str_eq name "stop"
        then on_stop s l
        else []
  ]

  abbrev pub is_stop : Line M → Bool
  is_stop l = elim l.cmd [ none ↦ false | some cmd ↦ str_eq (str_or_empty "cmd" cmd) "stop" ]

  -- The loop over the lines, which a stop ends.
  unfoldable pub serve : Session → List (Line M) → List (Output M)
  serve s [] = []
  serve s (l ∷ ls) = let rest = serve s ls in on_line s l ++ (if is_stop l then [] else rest)
