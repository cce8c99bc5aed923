-- ===== src/Engine/Channels/Routing.antt =====
-- src/orchestrator/engine.rs: what a failure and a `channel_done` do to a channel, and what the calls
-- about channels leave alone.
use zeptopm.Base.{
  String, ◌≡◌, refl, arith, true, false, not, ◌&&◌, some, List, [], ◌∷◌, filter, contains,
  contains-filter, format, get-modify, str_eq, str_eq_refl, Bool-cases, Option-cases, inl, inr,
}
use zeptopm.Types.{
  JobId, ChannelId, Time, Channel, kill_participants, notify_peers, kill_all, continue,
}
use zeptopm.Store.{get_channel, modify_channel}
use zeptopm.Store.Laws.{IsWellFormed, modify_channel-IsWellFormed}
use zeptopm.Engine.{Engine}
use zeptopm.Engine.Channels.{
  may_speak, is_waiting, is_last_round, record_message, close_channel, route_channel_message,
  handle_channel_done, handle_channel_peer_failure,
}

-- The engine with other channels.
abbrev pub SameButChannels : Engine → Engine → Type 0
SameButChannels e e' =
    (e'.store.jobs ≡ e.store.jobs)
    × (e'.store.runs ≡ e.store.runs)
    × (e'.store.artifacts ≡ e.store.artifacts)
    × (e'.ready_queue ≡ e.ready_queue)
    × (e'.active_jobs ≡ e.active_jobs)
    × (e'.last_heartbeat ≡ e.last_heartbeat)
    × (e'.max_concurrency ≡ e.max_concurrency)

-- The channel is over: it takes no message, and waits for no activation either.
abbrev pub IsOver : Channel → Type 0
IsOver ch = ((p : JobId) → may_speak ch p ≡ false) × (is_waiting ch ≡ false)

-- A failure of a participant closes the channel whatever its state: it is not active and is closed,
-- and is otherwise as it was, so that no job may speak on it and no later activation takes it. The
-- other channels, runs, jobs, artifacts, the queue and the active jobs stay as they are. The action
-- names exactly the participants other than the failed job, to be killed if the channel's policy is
-- KillAll and to be notified if it is Continue.
pub peer_failure_closes :
    (channel_id : ChannelId) (failed_job : JobId) (e : Engine) (ch : Channel)
    → get_channel channel_id e.store ≡ some ch
    → let (e', action) = handle_channel_peer_failure channel_id failed_job e in
      (get_channel channel_id e'.store ≡ some (record ch { active = false; closed = true }))
      × IsOver (record ch { active = false; closed = true })
      × ((k : ChannelId)
          → str_eq channel_id k ≡ false
          → get_channel k e'.store ≡ get_channel k e.store)
      × SameButChannels e e'
      × ((survivors : List JobId) × ((p : JobId)
            → contains p survivors ≡ (contains p ch.participants && not (str_eq p failed_job)))
          × (ch.on_peer_failure ≡ kill_all → action ≡ kill_participants survivors)
          × (ch.on_peer_failure ≡ continue
              → (text : String) × (action ≡ notify_peers survivors text)))
unfolding handle_channel_peer_failure modify_channel
peer_failure_closes channel_id failed_job e ch found = (
  unfold close_channel in
      ground (
        arith,
        found,
        get-modify channel_id channel_id close_channel e.store.channels,
        str_eq_refl channel_id,
      ),
  (λ p. unfold may_speak in refl, unfold is_waiting in refl),
  λ k other. ground (arith, found, get-modify k channel_id close_channel e.store.channels),
  ground (arith, found),
  (
    filter (λ p. not (str_eq p failed_job)) ch.participants,
    λ p. contains-filter p (λ p. not (str_eq p failed_job)) ch.participants,
    λ kill. ground (arith, found, kill),
    λ go. (
      format ("peer '" ∷ failed_job ∷ "' disconnected" ∷ []),
      rw (found, handle_channel_peer_failure, go) refl,
    ),
  ),
)

module _ (now : Time) (channel_id : ChannelId) (from_job : JobId) (content : String)
    (e : Engine) where
  pub route-keeps : SameButChannels e (route_channel_message now channel_id from_job content e).0
  unfolding route_channel_message modify_channel
  route-keeps = elim (Option-cases (get_channel channel_id e.store)) [
    | inl gone ↦ ground (arith, gone)
    | inr (ch, found) ↦ ground (arith, found)
  ]

  pub route-IsWellFormed :
      IsWellFormed e.store
      → IsWellFormed (route_channel_message now channel_id from_job content e).0.store
  unfolding route_channel_message
  route-IsWellFormed h =
      let recorded =
        modify_channel-IsWellFormed h channel_id (record_message now from_job content)
          (λ ch. unfold record_message in refl) in
      elim (Option-cases (get_channel channel_id e.store)) [
        | inl gone ↦ rw (gone, route_channel_message) h
        | inr (ch, found) ↦ elim (Bool-cases (may_speak ch from_job)) [
          | inr silent ↦ rw (found, route_channel_message, silent) h
          | inl turn ↦ elim (Bool-cases (is_last_round ch)) [
            | inl last ↦
                rw (found, route_channel_message, turn, last)
                  (modify_channel-IsWellFormed recorded channel_id close_channel
                    (λ c. unfold close_channel in refl))
            | inr more ↦ rw (found, route_channel_message, turn, more) recorded
          ]
        ]
      ]

module _ (channel_id : ChannelId) (job : JobId) (e : Engine) (h : IsWellFormed e.store) where
  closed-IsWellFormed : IsWellFormed (modify_channel channel_id close_channel e.store)
  closed-IsWellFormed =
      modify_channel-IsWellFormed h channel_id close_channel (λ c. unfold close_channel in refl)

  pub done-keeps :
      IsWellFormed (handle_channel_done channel_id job e).0.store
      × SameButChannels e (handle_channel_done channel_id job e).0
  unfolding handle_channel_done modify_channel
  done-keeps = elim (Option-cases (get_channel channel_id e.store)) [
    | inl gone ↦ rw (gone, handle_channel_done) (h, ground arith)
    | inr (ch, found) ↦ elim (Bool-cases (ch.active && contains job ch.participants)) [
      | inl ok' ↦ rw (found, handle_channel_done, ok') (closed-IsWellFormed, ground arith)
      | inr not' ↦ rw (found, handle_channel_done, not') (h, ground arith)
    ]
  ]

  pub peer_failure-keeps :
      IsWellFormed (handle_channel_peer_failure channel_id job e).0.store
      × SameButChannels e (handle_channel_peer_failure channel_id job e).0
  unfolding handle_channel_peer_failure modify_channel
  peer_failure-keeps = elim (Option-cases (get_channel channel_id e.store)) [
    | inl gone ↦ rw (gone, handle_channel_peer_failure) (h, ground arith)
    | inr (ch, found) ↦ rw (found, handle_channel_peer_failure) (closed-IsWellFormed, ground arith)
  ]
