-- ===== src/Engine/Channels.antt =====
-- src/orchestrator/engine.rs: the channels, over which running jobs talk. The daemon carries out
-- the `ChannelAction` that a call returns.
pub mod Routing
pub mod Delivery
pub mod Activation
pub mod Conversation
pub mod Outcome
use zeptopm.Base.{
  ℕ, ◌+◌, ◌%◌, String, Bool, true, false, not, ◌&&◌, ◌||◌, if◌then◌else◌, ltb, leb, ◌==◌, Option,
  none, some, List, [], ◌∷◌, ◌++◌, map, filter, all, is_empty, length, get_elem?, values, contains,
  str_eq, is_some_and, unwrap_or, format, u32_mod,
}
use zeptopm.Types.{
  RunId, JobId, ChannelId, Time, JobStatus, Job, Channel, ChannelMessage, ChannelMode, turn_based,
  stream, kill_all, continue, PeerFailure, ChannelAction, send_to, broadcast, close,
  kill_participants, notify_peers, no_op, job_status_eq, channel_mode_eq,
}
use zeptopm.Store.{RunStore, get_job, get_channel, modify_channel, list_run_channels}
use zeptopm.Engine.{Engine}

abbrev pub is_running : RunStore → JobId → Bool
is_running s p = is_some_and (λ (j : Job). job_status_eq j.status JobStatus.running) (get_job p s)

unfoldable pub set_active : Channel → Channel
set_active ch = record ch { active = true }

-- Are the participants of a channel of the store all running?
abbrev pub is_ready : RunStore → ChannelId → Bool
is_ready s ch_id =
    is_some_and (λ (ch : Channel). all (is_running s) ch.participants) (get_channel ch_id s)

-- The loop over the channels of a run that are neither active nor closed.
activate_channels : RunStore → List ChannelId → RunStore × List ChannelId
activate_channels s [] = (s, [])
activate_channels s (ch_id ∷ ch_ids) =
    let ready = is_ready s ch_id in
    let s' = if ready then modify_channel ch_id set_active s else s in
    let (s'', rest) = activate_channels s' ch_ids in
    (s'', (if ready then ch_id ∷ [] else []) ++ rest)

unfoldable pub is_waiting : Channel → Bool
is_waiting ch = not ch.active && not ch.closed

activate_runs : RunStore → List RunId → RunStore × List ChannelId
activate_runs s [] = (s, [])
activate_runs s (run_id ∷ run_ids) =
    let waiting =
      map (λ (ch : Channel). ch.channel_id) (filter is_waiting (list_run_channels run_id s)) in
    let (s', here) = activate_channels s waiting in
    let (s'', rest) = activate_runs s' run_ids in (s'', here ++ rest)

-- `collect::<HashSet<_>>()`: each run once.
dedup : List RunId → List RunId
dedup [] = []
dedup (x ∷ xs) = let rest = dedup xs in if contains x rest then rest else x ∷ rest

-- Activate the channels of the active runs whose participants are all running.
unfoldable pub activate_ready_channels : Engine → Engine × List ChannelId
unfolding activate_runs activate_channels dedup
activate_ready_channels e =
    let (s', activated) = activate_runs e.store (dedup (values e.active_jobs)) in
    (record e { store = s' }, activated)

-- May this job speak on this channel now?
unfoldable pub may_speak : Channel → JobId → Bool
may_speak ch from_job =
    ch.active
    && (not (is_empty ch.participants)
        && (contains from_job ch.participants
            && (if channel_mode_eq ch.mode turn_based
                then is_some_and (λ p. str_eq p from_job)
                    (get_elem? ch.participants ch.current_speaker_idx)
                else true)))

-- `usize`: an index into a vector does not wrap.
unfoldable pub next_speaker : Channel → ℕ
next_speaker ch = (ch.current_speaker_idx + 1) % length ch.participants

unfoldable pub next_round : Channel → ℕ
unfolding next_speaker
next_round ch = if next_speaker ch == 0 then (ch.current_round + 1) % u32_mod else ch.current_round

unfoldable pub record_message : Time → JobId → String → Channel → Channel
record_message now from_job content ch = record ch {
  history =
      ch.history
      ++ record {
        from_job = from_job;
        content = content;
        timestamp = now;
        round = ch.current_round;
      }
        ∷ [];
  current_speaker_idx = next_speaker ch;
  current_round = next_round ch;
}

unfoldable pub close_channel : Channel → Channel
close_channel ch = record ch { active = false; closed = true }

abbrev pub is_last_round : Channel → Bool
is_last_round ch = is_some_and (λ max. leb max (next_round ch)) ch.max_rounds

unfoldable pub stream_action : List JobId → String → ChannelAction
stream_action [] content = no_op
stream_action (p ∷ []) content = send_to p content
stream_action (p ∷ q ∷ ps) content = broadcast (p ∷ q ∷ ps) content

-- To whom an accepted message goes.
unfoldable pub delivery : Channel → JobId → String → ChannelAction
unfolding stream_action
delivery ch from_job content =
    if channel_mode_eq ch.mode turn_based
    then send_to (unwrap_or (get_elem? ch.participants (next_speaker ch)) "") content
    else stream_action (filter (λ p. not (str_eq p from_job)) ch.participants) content

unfoldable pub route_channel_message :
    Time → ChannelId → JobId → String → Engine → Engine × ChannelAction
route_channel_message now channel_id from_job content e = elim (get_channel channel_id e.store) [
  | none ↦ (e, no_op)
  | some ch ↦
      if may_speak ch from_job
      then (if is_last_round ch
          then (
            record e {
              store =
                  modify_channel channel_id close_channel
                    (modify_channel channel_id (record_message now from_job content) e.store);
            },
            close channel_id,
          )
          else (
            record e {
              store = modify_channel channel_id (record_message now from_job content) e.store;
            },
            delivery ch from_job content,
          ))
      else (e, no_op)
]

-- A participant says that the conversation is done.
unfoldable pub handle_channel_done : ChannelId → JobId → Engine → Engine × ChannelAction
handle_channel_done channel_id from_job e = elim (get_channel channel_id e.store) [
  | none ↦ (e, no_op)
  | some ch ↦
      if ch.active && contains from_job ch.participants
      then (record e { store = modify_channel channel_id close_channel e.store }, close channel_id)
      else (e, no_op)
]

peer_action : PeerFailure → List JobId → JobId → ChannelAction
peer_action kill_all surviving failed_job = kill_participants surviving
peer_action continue surviving failed_job =
    notify_peers surviving (format ("peer '" ∷ failed_job ∷ "' disconnected" ∷ []))

-- A participant has died: the channel closes, whether it was active or not.
unfoldable pub handle_channel_peer_failure : ChannelId → JobId → Engine → Engine × ChannelAction
unfolding peer_action
handle_channel_peer_failure channel_id failed_job e = elim (get_channel channel_id e.store) [
  | none ↦ (e, no_op)
  | some ch ↦ (
    record e { store = modify_channel channel_id close_channel e.store },
    peer_action ch.on_peer_failure (filter (λ p. not (str_eq p failed_job)) ch.participants)
        failed_job,
  )
]
