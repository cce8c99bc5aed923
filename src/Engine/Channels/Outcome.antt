-- ===== src/Engine/Channels/Outcome.antt =====
-- src/orchestrator/engine.rs: how a conversation with a limit on its rounds goes and ends.
use zeptopm.Base.{
  ℕ, ◌<◌, ◌≤◌, ◌*◌, ◌+◌, String, ◌≡◌, subst, arith, ◌↔◌, ◌⊎◌, Bool, true, false, some, List, [],
  ◌∷◌, ◌++◌, length, length-append, get_elem?, any, inl, inr,
}
use zeptopm.Types.{JobId, ChannelId, Time, Channel, ChannelMode, ChannelMessage, turn_based, stream}
use zeptopm.Store.{get_channel}
use zeptopm.Engine.{Engine}
use zeptopm.Engine.Channels.{route_channel_message}
use zeptopm.Engine.Channels.Delivery.{
  HasFloor, IsTurn, get_elem?-contains, route_exact, refused, ended, passed,
}
use zeptopm.Engine.Channels.Conversation.{
  ChannelCall, perform_all, is_end, InTurn, IsConversation, IsOpened, perform_all-GoesOn,
  IsOpened-IsConversation,
}

-- The messages of the rounds before the last leave room for one more; the last round fills up.
fill : (r max n c : ℕ) → r < max → c < n → r * n + c < max * n
fill r max n c h k = grind arith

IsConversation-bounded :
    (max : ℕ) (cut : Bool) (c : Channel)
    → IsConversation max cut c
    → (length c.history ≤ max * length c.participants)
      × ((c.closed ≡ true) ↔ ((length c.history ≡ max * length c.participants) ⊎ (cut ≡ true)))
IsConversation-bounded max cut c v = elim v.within [
  | inl early ↦
      let room =
        fill c.current_round max (length c.participants) c.current_speaker_idx early v.speaker in
      (
        omega (arith, room, v.counted),
        (
          λ z. inr (ground (arith, z, early, v.going, v.over)),
          λ z. ground (arith, z, room, v.counted, v.going, v.over),
        ),
      )
  | inr (last, first) ↦
      let full : length c.history ≡ max * length c.participants =
        rw (v.counted, last, first) (omega arith) in
      (omega (arith, full), (λ z. inl full, λ z. ground (arith, last, v.going, v.over)))
]

module _ (channel_id : ChannelId) (max : ℕ) (ch : Channel) (e : Engine) (calls : List ChannelCall)
    (h : IsOpened max ch) (found : get_channel channel_id e.store ≡ some ch) where
  -- A channel that was just activated with a limit of `max` rounds, at least one, after any messages
  -- on it, calls of `channel_done` and failures of participants: it is still there, with the same
  -- participants; its history holds in all at most `max` times as many messages as it has
  -- participants; and it is closed exactly if the history is as long as that, or if a participant
  -- said that it was done or some failure was reported.
  pub conversation_bounded :
      (c : Channel) × (get_channel channel_id (perform_all channel_id calls e).store ≡ some c)
      × (c.participants ≡ ch.participants)
      × (length c.history ≤ max * length ch.participants)
      × ((c.closed ≡ true) ↔ (
          (length c.history ≡ max * length ch.participants)
          ⊎ (any (is_end ch.participants) calls ≡ true)))
  conversation_bounded =
      let (c, stored, v, same) =
        perform_all-GoesOn channel_id max false calls ch e (IsOpened-IsConversation h) found in
      let (few, over) = IsConversation-bounded max _ c v in
      (
        c,
        stored,
        same,
        ground (arith, few, same),
        subst
            (λ ps. (c.closed ≡ true) ↔ (
              (length c.history ≡ max * length ps) ⊎ (any (is_end ch.participants) calls ≡ true)))
            same over,
      )

  -- The channel at the end of the calls.
  at_end :
      (c : Channel)
      → get_channel channel_id (perform_all channel_id calls e).store ≡ some c
      → IsConversation max (any (is_end ch.participants) calls) c
  at_end c stored =
      let (d, stored', v, same) =
        perform_all-GoesOn channel_id max false calls ch e (IsOpened-IsConversation h) found in
      subst (IsConversation max (any (is_end ch.participants) calls))
        (ground (arith, stored, stored')) v

  -- After any calls about a channel that was just activated with a limit of at least one round, its
  -- message number `i` was said in round `r` by participant number `c`, where `i` is `r` times the
  -- number of participants plus `c`; the speaker is so fixed if the channel is turn-based, and the
  -- round on every channel.
  pub conversation_turns :
      (c : Channel) (i : ℕ) (m : ChannelMessage)
      → get_channel channel_id (perform_all channel_id calls e).store ≡ some c
      → get_elem? c.history i ≡ some m
      → InTurn c i m
  conversation_turns c i m stored = (at_end c stored).turns i m

  -- A conversation that is not closed never stalls: after any calls about a channel that was just
  -- activated with a limit of at least one round, if the channel is not closed some participant has
  -- the floor, and a message that it sends is recorded as one more.
  pub conversation_progress :
      (c : Channel)
      → get_channel channel_id (perform_all channel_id calls e).store ≡ some c
      → c.closed ≡ false
      → (p : JobId) × HasFloor c p
        × ((now : Time) (content : String)
            → let e' = perform_all channel_id calls e in
              (d : Channel) × (get_channel channel_id
                  (route_channel_message now channel_id p content e').0.store
                ≡ some d)
              × (length d.history ≡ length c.history + 1))
  conversation_progress c stored going =
      let v = at_end c stored in
      let (p, there, member) = get_elem?-contains c.participants c.current_speaker_idx v.speaker in
      let floor : HasFloor c p =
        (ground (arith, v.over, going), member, takes_turn p c.mode there) in
      (p, floor, λ now content. recorded p now content floor)
    where
      takes_turn :
          (p : JobId) (mode : ChannelMode)
          → get_elem? c.participants c.current_speaker_idx ≡ some p
          → IsTurn mode c p
      takes_turn p turn_based there = there
      takes_turn p stream there = tt

      longer :
          (now : Time) (p : JobId) (content : String)
          → length (
              c.history
              ++ record {
                from_job = p;
                content = content;
                timestamp = now;
                round = c.current_round;
              }
                ∷ [])
            ≡ length c.history + 1
      longer now p content = length-append c.history (
          record { from_job = p; content = content; timestamp = now; round = c.current_round } ∷ [])

      recorded :
          (p : JobId) (now : Time) (content : String)
          → HasFloor c p
          → let e' = perform_all channel_id calls e in
            (d : Channel) × (get_channel channel_id
                (route_channel_message now channel_id p content e').0.store
              ≡ some d)
            × (length d.history ≡ length c.history + 1)
      recorded p now content floor =
          elim (route_exact now channel_id p content (perform_all channel_id calls e) c stored).0 [
            | refused silent same action ↦ absurd (silent floor)
            | ended f last kept action ↦ (_, kept, longer now p content)
            | passed f more kept action ↦ (_, kept, longer now p content)
          ]
