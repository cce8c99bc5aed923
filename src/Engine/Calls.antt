-- ===== src/Engine/Calls.antt =====
-- src/orchestrator/engine.rs: the engine as its client sees it, a state that the calls of its
-- methods move, in any order and with any arguments. The daemon owns the only engine and calls it
-- from one loop, so calls do not overlap.
use zeptopm.Base.{ℕ, String, List, [], ◌∷◌}
use zeptopm.Types.{JobId, ArtifactId, ChannelId}
use zeptopm.Engine.{
  Engine, Env, submit_run, next_job, mark_running, record_heartbeat, mark_completed, mark_failed,
}
use zeptopm.Engine.Review.{ReviewDecision, handle_review_completion}
use zeptopm.Engine.Channels.{
  activate_ready_channels, route_channel_message, handle_channel_done, handle_channel_peer_failure,
}

pub data Call : Type 0 where
  submit : String → Call
  next : Call
  start : JobId → Call
  heartbeat : JobId → Call
  complete : JobId → List ArtifactId → Call
  fail : JobId → String → Call
  review : JobId → ReviewDecision → ℕ → Call
  activate : Call
  say : ChannelId → JobId → String → Call
  done : ChannelId → JobId → Call
  peer_failure : ChannelId → JobId → Call

-- The engine and the id counter after a call.
unfoldable pub step : Env × Call → Engine × ℕ → Engine × ℕ
step (env, submit task) (e, n) = let (e', _, n') = submit_run env task n e in (e', n')
step (env, next) (e, n) = ((next_job e).0, n)
step (env, start job_id) (e, n) = (mark_running env job_id e, n)
step (env, heartbeat job_id) (e, n) = (record_heartbeat env job_id e, n)
step (env, complete job_id outputs) (e, n) = (mark_completed env job_id outputs e, n)
step (env, fail job_id error) (e, n) = (mark_failed env job_id error e, n)
step (env, review job_id decision max_revisions) (e, n) =
    let (e', _, n') = handle_review_completion env job_id decision max_revisions n e in (e', n')
step (env, activate) (e, n) = ((activate_ready_channels e).0, n)
step (env, say channel_id from_job content) (e, n) =
    ((route_channel_message env.system channel_id from_job content e).0, n)
step (env, done channel_id from_job) (e, n) = ((handle_channel_done channel_id from_job e).0, n)
step (env, peer_failure channel_id failed_job) (e, n) =
    ((handle_channel_peer_failure channel_id failed_job e).0, n)

unfoldable pub run : List (Env × Call) → Engine × ℕ → Engine × ℕ
run [] s = s
run (c ∷ cs) s = run cs (step c s)
