-- ===== src/Cli.antt =====
-- src/main.rs: the errors of the command line, and how a run is printed and followed; src/status.rs.
-- What is printed is a list of lines. The daemon's answer is read by `serde_json`, which is foreign: a
-- field that is missing or no text is `none`.
mod Tests
use zeptopm.Base.{
  ℕ, zero, suc, ◌-◌, ◌/◌, ◌%◌, ◌==◌, String, Bool, true, false, not, ◌||◌, if◌then◌else◌, ltb,
  Option, none, some, List, [], ◌∷◌, ◌++◌, map, flat_map, Map, get, insert, is_empty, join, str_eq,
  unwrap_or, format, show_nat, take_chars,
}
use zeptopm.Agent.{AgentState, show_status}

pub record CliError : Type 0 where
  pub message : String
  pub code : String

unfoldable pub not_found : String → String → CliError
not_found kind id = record {
  message = format (kind ∷ " '" ∷ id ∷ "' not found" ∷ []);
  code =
      if str_eq kind "run"
      then "RUN_NOT_FOUND"
      else if str_eq kind "agent"
      then "AGENT_NOT_FOUND"
      else "NOT_FOUND";
}

abbrev pub daemon_unreachable : String → CliError
daemon_unreachable addr = record {
  message = format ("Failed to connect to daemon at " ∷ addr ∷ []);
  code = "DAEMON_UNREACHABLE";
}

abbrev pub parse_error : String → CliError
parse_error detail = record {
  message = format ("Failed to parse response: " ∷ detail ∷ []);
  code = "PARSE_ERROR";
}

abbrev pub invalid_config : String → CliError
invalid_config detail = record {
  message = format ("Invalid config: " ∷ detail ∷ []);
  code = "INVALID_CONFIG";
}

unfoldable pub format_uptime : ℕ → String
format_uptime secs =
    if ltb secs 60
    then format (show_nat secs ∷ "s" ∷ [])
    else if ltb secs 3600
    then format (show_nat (secs / 60) ∷ "m " ∷ show_nat (secs % 60) ∷ "s" ∷ [])
    else format (show_nat (secs / 3600) ∷ "h " ∷ show_nat (secs % 3600 / 60) ∷ "m" ∷ [])

-- The number of characters of a text, and as many spaces as are missing from a width: `{:<n}`.
abbrev chars : String → ℕ
chars String.[] = 0
chars (String.◌∷◌ c s) = suc (chars s)

abbrev repeated : String → ℕ → List String
repeated s zero = []
repeated s (suc n) = s ∷ repeated s n

abbrev pad : ℕ → String → String
pad n s = format (s ∷ repeated " " (n - chars s))

-- The columns of a row, all but the last padded, with single spaces between them.
abbrev row : List (ℕ × String) → String → String
row columns last =
    format (flat_map (λ (c : ℕ × String). pad c.0 c.1 ∷ " " ∷ []) columns ++ last ∷ [])

abbrev agent_row : AgentState → String
agent_row a =
    row
      ((20, a.name)
        ∷ (15, show_status a.status)
        ∷ (8, show_nat a.restart_count)
        ∷ (12, show_nat a.tokens_used)
        ∷ [])
      (take_chars 30 (unwrap_or a.last_error "-"))

unfoldable pub format_status_table : List AgentState → String
format_status_table agents =
    if is_empty agents
    then "No agents configured."
    else join "\n" (
        row ((20, "NAME") ∷ (15, "STATUS") ∷ (8, "RESTARTS") ∷ (12, "TOKENS") ∷ []) "LAST ERROR"
        ∷ format (repeated "-" 75)
        ∷ map agent_row agents)

-- A job and a run in an answer of the daemon.
pub record JobView : Type 0 where
  pub job_id : Option String
  pub role : Option String
  pub status : Option String
  pub instruction : Option String
  pub error : Option String

pub record RunView : Type 0 where
  pub error : Option String
  pub status : Option String
  pub task : Option String
  pub run_id : Option String
  pub jobs : List JobView

abbrev or_unknown : Option String → String
or_unknown s = unwrap_or s "?"

abbrev job_row : JobView → String
job_row job =
    row ((24, or_unknown job.job_id) ∷ (12, or_unknown job.role) ∷ (12, or_unknown job.status) ∷ [])
      (take_chars 40 (unwrap_or job.instruction ""))

abbrev jobs_table : List JobView → List String
jobs_table [] = []
jobs_table (job ∷ jobs) =
    format ("\n" ∷ row ((24, "JOB ID") ∷ (12, "ROLE") ∷ (12, "STATUS") ∷ []) "INSTRUCTION" ∷ [])
    ∷ format (repeated "-" 80)
    ∷ map job_row (job ∷ jobs)

-- A body, with what it reads as.
unfoldable pub print_run_status : String → Option RunView → List String
print_run_status body none = body ∷ []
print_run_status body (some v) = elim v.error [
  | some error ↦ format ("Error: " ∷ error ∷ []) ∷ []
  | none ↦
      format ("Run: " ∷ or_unknown v.run_id ∷ "  Status: " ∷ or_unknown v.status ∷ [])
      ∷ format ("Task: " ∷ or_unknown v.task ∷ [])
      ∷ jobs_table v.jobs
]

-- The line about a job whose status has changed.
abbrev change_line : String → JobView → String
change_line now job =
    let named =
      format ("  " ∷ now ∷ " [" ∷ or_unknown job.role ∷ "] " ∷ or_unknown job.job_id ∷ []) in
    let st = or_unknown job.status in
    if str_eq st "Running"
    then format (named ∷ " starting..." ∷ [])
    else if str_eq st "Completed"
    then format (named ∷ " completed" ∷ [])
    else if str_eq st "Failed"
    then format (named ∷ " FAILED: " ∷ unwrap_or job.error "unknown" ∷ [])
    else if str_eq st "Ready"
    then format (named ∷ " ready (queued)" ∷ [])
    else format (named ∷ " -> " ∷ st ∷ [])

pub record Tail : Type 0 where
  pub seen_statuses : Map String
  pub last_run_status : String
  pub lines : List String
  pub is_open : Bool

unfoldable pub see_job : String → JobView → Tail → Tail
see_job now job t =
    let jid = or_unknown job.job_id in
    let st = or_unknown job.status in
    if str_eq (unwrap_or (get jid t.seen_statuses) "") st then t else record t {
      seen_statuses = insert jid st t.seen_statuses;
      lines = t.lines ++ change_line now job ∷ [];
    }

unfoldable pub see_jobs : String → List JobView → Tail → Tail
see_jobs now [] t = t
see_jobs now (job ∷ jobs) t = see_jobs now jobs (see_job now job t)

abbrev pub is_final : String → Bool
is_final status = str_eq status "Completed" || str_eq status "Failed" || str_eq status "Cancelled"

abbrev see_run : String → String → String → Tail → Tail
see_run now run_id run_status t =
    if str_eq run_status t.last_run_status
    then t
    else if is_final run_status
    then record t {
      lines = t.lines ++ format ("\n  " ∷ now ∷ " Run " ∷ run_id ∷ " -> " ∷ run_status ∷ []) ∷ [];
      is_open = false;
    }
    else record t { last_run_status = run_status }

-- What a poll yields, with the time: an error of the connection, a body that is no JSON, or a body.
pub data Poll : Type 0 where
  poll_error : String → Poll
  no_json : Poll
  answer : String → RunView → Poll

unfoldable pub on_poll : String → Poll → Tail → Tail
unfolding see_jobs see_job
on_poll run_id (poll_error e) t = record t {
  lines = t.lines ++ format ("  [poll error: " ∷ e ∷ "]" ∷ []) ∷ [];
}
on_poll run_id no_json t = t
on_poll run_id (answer now v) t = see_run now run_id (or_unknown v.status) (see_jobs now v.jobs t)

-- The line that announces the run, which comes first, is left out.
abbrev pub start : Tail
start = record { seen_statuses = []; last_run_status = ""; lines = []; is_open = true }

-- `tail_run` after the polls, which end with the first that closes it.
unfoldable pub tail_from : String → List Poll → Tail → Tail
tail_from run_id [] t = t
tail_from run_id (p ∷ ps) t =
    let rest = tail_from run_id ps (on_poll run_id p t) in if t.is_open then rest else t

unfoldable pub tail_run : String → List Poll → Tail
tail_run run_id polls = tail_from run_id polls start
