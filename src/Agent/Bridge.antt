-- ===== src/Agent/Bridge.antt =====
-- src/agent.rs, `worker_bridge`: between the commands to an agent and its worker process. What the
-- bridge writes to the worker, answers, reports and forwards are lists in the order of time. What
-- comes from outside is an `Input`: a command with whether the write to the worker succeeds, or a
-- message of the worker. The process is started by the system; from there on all is here.
pub mod Counts
pub mod Replies
use zeptopm.Base.{
  ℕ, ◌+◌, ◌%◌, String, Bool, true, false, not, ◌&&◌, ◌||◌, if◌then◌else◌, Option, none, some, List,
  [], ◌∷◌, ◌++◌, map, Map, get, insert, remove, values, str_eq, unwrap_or, format, show_nat,
  u64_mod, ◌⊎◌, inl, inr,
}
use zeptopm.Types.{JobId, ChannelId}
use zeptopm.Json.{Json, Field, text, flag, get_str, str_or_empty}
use zeptopm.Agent.{
  AgentStatus, AgentCommand, user_message, channel_message, job_execute, stop, AgentStateUpdate,
  LogEntry, make_log,
}

-- What the bridge is started with.
pub record Worker : Type 0 where
  pub agent_name : String
  -- Is there an event channel of the orchestrator?
  pub has_orch : Bool
  pub orch_job_id : Option JobId
  pub child_pid : Option ℕ

-- A reply is an error (`inl`) or a response (`inr`), to a sender.
pub record Bridge : Type 0 where
  pub pending : Map ℕ
  pub pending_channel : Map ChannelId
  pub req_counter : ℕ
  pub stdin : List Json
  pub replies : List (ℕ × (String ⊎ String))
  pub updates : List AgentStateUpdate
  pub events : List Json
  pub is_open : Bool

abbrev pub start : Bridge
start = record {
  pending = [];
  pending_channel = [];
  req_counter = 0;
  stdin = [];
  replies = [];
  updates = [];
  events = [];
  is_open = true;
}

pub data Input : Type 0 where
  command : AgentCommand → Bool → Input
  commands_closed : Input
  -- A message, with the time as `chrono` prints it.
  message : String → Json → Input
  stdout_closed : Input

abbrev pub request_id : ℕ → String
request_id n = format ("req-" ∷ show_nat n ∷ [])

abbrev with_job : Option JobId → Json → Json
with_job none line = line
with_job (some job_id) line = line ++ ("job_id", text job_id) ∷ []

abbrev chat_line : Worker → String → String → Json
chat_line w id msg =
    with_job w.orch_job_id (("cmd", text "chat") ∷ ("id", text id) ∷ ("message", text msg) ∷ [])

-- A failed write breaks the loop.
abbrev write_line : Json → Bool → Bridge → Bridge
write_line line true b = record b { stdin = b.stdin ++ line ∷ [] }
write_line line false b = record b { is_open = false }

abbrev add_pending : String → Option ℕ → Map ℕ → Map ℕ
add_pending id none pending = pending
add_pending id (some tx) pending = insert id tx pending

unfoldable pub on_command : Worker → AgentCommand → Bool → Bridge → Bridge
on_command w (user_message msg resp_tx) ok b =
    let n = (b.req_counter + 1) % u64_mod in
    write_line (chat_line w (request_id n) msg) ok
      (record b { req_counter = n; pending = add_pending (request_id n) resp_tx b.pending })
on_command w (channel_message channel_id msg) ok b =
    let n = (b.req_counter + 1) % u64_mod in
    write_line (chat_line w (request_id n) msg) ok (record b {
      req_counter = n;
      pending_channel = insert (request_id n) channel_id b.pending_channel;
    })
on_command w (job_execute job_id instruction workspace input_artifacts) ok b =
    write_line
      (("cmd", text "job_execute")
        ∷ ("job_id", text job_id)
        ∷ ("instruction", text instruction)
        ∷ ("workspace", text workspace)
        ∷ ("input_artifacts", Field.array (map some input_artifacts))
        ∷ [])
      ok b
on_command w stop ok b =
    if ok then record b { stdin = b.stdin ++ (("cmd", text "stop") ∷ []) ∷ [] } else b

abbrev pub update : Worker → AgentStatus → Option String → Option LogEntry → AgentStateUpdate
update w status error log = record {
  name = w.agent_name;
  status = status;
  error = error;
  tokens_delta = 0;
  log = log;
  pid = w.child_pid;
}

abbrev report : AgentStateUpdate → Bridge → Bridge
report u b = record b { updates = b.updates ++ u ∷ [] }

-- An event is sent if there is a channel for it.
abbrev forward : Worker → Json → Bridge → Bridge
forward w event b = if w.has_orch then record b { events = b.events ++ event ∷ [] } else b

abbrev reply_of : Json → String ⊎ String
reply_of msg = elim (get_str "error" msg) [
  | some error ↦ inl error
  | none ↦ inr (str_or_empty "response" msg)
]

-- The event that answers a channel message; it names the worker's job.
abbrev channel_event : JobId → ChannelId → String ⊎ String → Json
channel_event job_id channel_id (inl error) =
    ("type", text "job_failed")
    ∷ ("job_id", text job_id)
    ∷ ("error", text (format ("channel message failed: " ∷ error ∷ [])))
    ∷ ("retryable", flag true)
    ∷ []
channel_event job_id channel_id (inr response) =
    ("type", text "channel_message")
    ∷ ("channel_id", text channel_id)
    ∷ ("from_job", text job_id)
    ∷ ("content", text response)
    ∷ []

abbrev answer_channel : Worker → ChannelId → String ⊎ String → Bridge → Bridge
answer_channel w channel_id reply b = elim w.orch_job_id [
  | none ↦ b
  | some job_id ↦ forward w (channel_event job_id channel_id reply) b
]

unfoldable pub on_chat_response : Worker → Json → Bridge → Bridge
on_chat_response w msg b =
    let id = str_or_empty "id" msg in
    elim (get id b.pending) [
      | some tx ↦ record b {
        pending = remove id b.pending;
        replies = b.replies ++ (tx, reply_of msg) ∷ [];
      }
      | none ↦ elim (get id b.pending_channel) [
        | some channel_id ↦
            answer_channel w channel_id (reply_of msg)
              (record b { pending_channel = remove id b.pending_channel })
        | none ↦ b
      ]
    ]

abbrev pub status_of_text : String → AgentStatus
status_of_text s =
    if str_eq s "idle"
    then AgentStatus.idle
    else if str_eq s "running"
    then AgentStatus.running
    else if str_eq s "error"
    then AgentStatus.error
    else if str_eq s "stopped"
    then AgentStatus.stopped
    else AgentStatus.idle

abbrev is_stopped : AgentStatus → Bool
is_stopped AgentStatus.stopped = true
is_stopped _ = false

abbrev on_status : Worker → Json → Bridge → Bridge
on_status w msg b =
    let status = status_of_text (unwrap_or (get_str "status" msg) "idle") in
    let b' = report (update w status (get_str "error" msg) none) b in
    if is_stopped status then record b' { is_open = false } else b'

abbrev on_log : Worker → String → Json → Bridge → Bridge
on_log w now msg b =
    let level = unwrap_or (get_str "level" msg) "info" in
    report (update w AgentStatus.idle none (some (make_log now level (str_or_empty "message" msg))))
      b

abbrev on_job_event : Worker → String → String → Json → Bridge → Bridge
on_job_event w now msg_type msg b =
    let note = format (msg_type ∷ ": " ∷ unwrap_or (get_str "job_id" msg) "?" ∷ []) in
    forward w msg (report (update w AgentStatus.idle none (some (make_log now "info" note))) b)

unfoldable pub on_message : Worker → String → Json → Bridge → Bridge
unfolding on_chat_response
on_message w now msg b =
    let msg_type = str_or_empty "type" msg in
    if str_eq msg_type "chat_response"
    then on_chat_response w msg b
    else if str_eq msg_type "status"
    then on_status w msg b
    else if str_eq msg_type "log"
    then on_log w now msg b
    else if str_eq msg_type "heartbeat" || str_eq msg_type "progress"
    then forward w msg b
    else if str_eq msg_type "artifact_produced"
        || (str_eq msg_type "job_completed" || str_eq msg_type "job_failed")
    then on_job_event w now msg_type msg b
    else b

-- One round of the loop.
unfoldable pub on_input : Worker → Input → Bridge → Bridge
on_input w (command cmd ok) b = on_command w cmd ok b
on_input w commands_closed b = record b { is_open = false }
on_input w (message now msg) b = on_message w now msg b
on_input w stdout_closed b = record b { is_open = false }

-- The loop, until it is left; inputs after that are not read.
unfoldable pub serve : Worker → List Input → Bridge → Bridge
serve w [] b = b
serve w (input ∷ inputs) b =
    let rest = serve w inputs (on_input w input b) in if b.is_open then rest else b

-- How the process ended: its exit status in words and whether it is a success, or `wait` failed.
pub data Exit : Type 0 where
  exited : Bool → String → Exit
  unknown : Exit

abbrev report_exit : Worker → String → Exit → Bridge → Bridge
report_exit w now (exited false status) b =
    let error = format ("worker exited with " ∷ status ∷ []) in
    report (update w AgentStatus.error (some error) (some (make_log now "error" error))) b
report_exit w now _ b = b

-- After the loop: the requests that wait are failed, and the end is reported.
unfoldable pub finish : Worker → String → Exit → Bridge → Bridge
finish w now exit b =
    let error = format ("agent '" ∷ w.agent_name ∷ "' worker process exited" ∷ []) in
    let drained = record b {
      pending = [];
      replies = b.replies ++ map (λ tx. (tx, inl error)) (values b.pending);
    } in
    report (update w AgentStatus.stopped none (some (make_log now "info" "worker process stopped")))
      (report_exit w now exit drained)
