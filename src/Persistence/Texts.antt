-- ===== src/Persistence/Texts.antt =====
-- src/orchestrator/sqlite_store.rs: the texts in which a status, a mode and a policy are stored,
-- written by the derived `Debug` of src/orchestrator/types.rs.
use zeptopm.Base.{String, ◌≡◌, refl, if◌then◌else◌, str_eq}
use zeptopm.Types.{
  RunStatus, JobStatus, ChannelMode, turn_based, stream, PeerFailure, kill_all, continue,
}

-- `format!("{:?}", status)`
abbrev pub debug_run_status : RunStatus → String
debug_run_status RunStatus.pending = "Pending"
debug_run_status RunStatus.running = "Running"
debug_run_status RunStatus.completed = "Completed"
debug_run_status RunStatus.failed = "Failed"
debug_run_status RunStatus.cancelled = "Cancelled"

abbrev pub debug_job_status : JobStatus → String
debug_job_status JobStatus.pending = "Pending"
debug_job_status JobStatus.ready = "Ready"
debug_job_status JobStatus.running = "Running"
debug_job_status JobStatus.completed = "Completed"
debug_job_status JobStatus.failed = "Failed"
debug_job_status JobStatus.cancelled = "Cancelled"

abbrev pub debug_mode : ChannelMode → String
debug_mode turn_based = "TurnBased"
debug_mode stream = "Stream"

abbrev pub debug_policy : PeerFailure → String
debug_policy kill_all = "KillAll"
debug_policy continue = "Continue"

unfoldable pub parse_run_status : String → RunStatus
parse_run_status s =
    if str_eq s "Pending"
    then RunStatus.pending
    else if str_eq s "Running"
    then RunStatus.running
    else if str_eq s "Completed"
    then RunStatus.completed
    else if str_eq s "Failed"
    then RunStatus.failed
    else if str_eq s "Cancelled"
    then RunStatus.cancelled
    else RunStatus.pending

unfoldable pub parse_job_status : String → JobStatus
parse_job_status s =
    if str_eq s "Pending"
    then JobStatus.pending
    else if str_eq s "Ready"
    then JobStatus.ready
    else if str_eq s "Running"
    then JobStatus.running
    else if str_eq s "Completed"
    then JobStatus.completed
    else if str_eq s "Failed"
    then JobStatus.failed
    else if str_eq s "Cancelled"
    then JobStatus.cancelled
    else JobStatus.pending

unfoldable pub parse_channel_mode : String → ChannelMode
parse_channel_mode s =
    if str_eq s "TurnBased" then turn_based else if str_eq s "Stream" then stream else turn_based

unfoldable pub parse_peer_failure : String → PeerFailure
parse_peer_failure s =
    if str_eq s "Continue" then continue else if str_eq s "KillAll" then kill_all else kill_all

pub parse_run_status-debug : (s : RunStatus) → parse_run_status (debug_run_status s) ≡ s
unfolding parse_run_status str_eq
parse_run_status-debug RunStatus.pending = refl
parse_run_status-debug RunStatus.running = refl
parse_run_status-debug RunStatus.completed = refl
parse_run_status-debug RunStatus.failed = refl
parse_run_status-debug RunStatus.cancelled = refl

pub parse_job_status-debug : (s : JobStatus) → parse_job_status (debug_job_status s) ≡ s
unfolding parse_job_status str_eq
parse_job_status-debug JobStatus.pending = refl
parse_job_status-debug JobStatus.ready = refl
parse_job_status-debug JobStatus.running = refl
parse_job_status-debug JobStatus.completed = refl
parse_job_status-debug JobStatus.failed = refl
parse_job_status-debug JobStatus.cancelled = refl

pub parse_channel_mode-debug : (m : ChannelMode) → parse_channel_mode (debug_mode m) ≡ m
unfolding parse_channel_mode str_eq
parse_channel_mode-debug turn_based = refl
parse_channel_mode-debug stream = refl

pub parse_peer_failure-debug : (p : PeerFailure) → parse_peer_failure (debug_policy p) ≡ p
unfolding parse_peer_failure str_eq
parse_peer_failure-debug kill_all = refl
parse_peer_failure-debug continue = refl
