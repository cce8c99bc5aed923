-- ===== src/Engine/Channels/Conversation.antt =====
-- src/orchestrator/engine.rs: the conversation on one channel, as the sequence of calls about it:
-- messages that jobs try to send, participants that are done, and failures of participants.
use native.Mathlib.Nat.{mod-eq_of_lt}
use zeptopm.Base.{
  ℕ, ◌<◌, ◌*◌, ◌+◌, ◌%◌, String, ◌≡◌, refl, sym, ap, subst, ◌∙◌, arith, Bool, any, str_eq_refl,
  get-modify, ◌||◌, ◌⊎◌, true, false, some, contains, List, [], ◌∷◌, length, length-append,
  get_elem?, get_elem?-snoc, Bool-cases, inl, inr, u32_mod,
}
use zeptopm.Types.{JobId, ChannelId, Time, Channel, ChannelMessage, turn_based}
use zeptopm.Store.{get_channel, modify_channel}
use zeptopm.Engine.{Engine}
use zeptopm.Engine.Channels.{
  close_channel, route_channel_message, handle_channel_done, handle_channel_peer_failure,
}
use zeptopm.Engine.Channels.Delivery.{
  IsTurn, HasFloor, IsLast, following, round_after, with_message, refused, ended, passed,
  route_exact,
}

-- A call about the channel: an attempt to speak, with when, who and what; a participant that is
-- done; a failure of a participant.
pub data ChannelCall : Type 0 where
  said : Time → JobId → String → ChannelCall
  done : JobId → ChannelCall
  peer_failed : JobId → ChannelCall

unfoldable pub perform : ChannelId → ChannelCall → Engine → Engine
perform channel_id (said now from_job content) e =
    (route_channel_message now channel_id from_job content e).0
perform channel_id (done from_job) e = (handle_channel_done channel_id from_job e).0
perform channel_id (peer_failed failed_job) e =
    (handle_channel_peer_failure channel_id failed_job e).0

unfoldable pub perform_all : ChannelId → List ChannelCall → Engine → Engine
perform_all channel_id [] e = e
perform_all channel_id (call ∷ calls) e = perform_all channel_id calls (perform channel_id call e)

-- The calls that end a conversation between these participants before its limit.
abbrev pub is_end : List JobId → ChannelCall → Bool
is_end participants (said _ _ _) = false
is_end participants (done from_job) = contains from_job participants
is_end participants (peer_failed _) = true

-- The message number `i` of a channel with `n` participants was said in round `r` by participant
-- number `c`, where `i = r * n + c`.
abbrev pub InTurn : Channel → ℕ → ChannelMessage → Type 0
InTurn ch i m =
    (r : ℕ) × (c : ℕ) × (i ≡ r * length ch.participants + c)
    × (c < length ch.participants)
    × (m.round ≡ r)
    × (ch.mode ≡ turn_based → get_elem? ch.participants c ≡ some m.from_job)

-- A channel that is to close after `max` rounds, and that was closed before if it is `cut`.
pub record IsConversation (max : ℕ) (cut : Bool) (ch : Channel) : Type 0 where
  pub limit : ch.max_rounds ≡ some max
  pub in_range : max < u32_mod
  pub speaker : ch.current_speaker_idx < length ch.participants
  pub counted :
      length ch.history ≡ ch.current_round * length ch.participants + ch.current_speaker_idx
  pub within : (ch.current_round < max) ⊎ ((ch.current_round ≡ max) × (ch.current_speaker_idx ≡ 0))
  pub going : ch.active ≡ true → (ch.current_round < max) × (ch.closed ≡ false) × (cut ≡ false)
  pub over : ch.active ≡ false → (ch.closed ≡ true) × (cut ≡ false → ch.current_round ≡ max)
  pub turns : (i : ℕ) (m : ChannelMessage) → get_elem? ch.history i ≡ some m → InTurn ch i m

-- The index after `i`, in a circle of `n`.
next_in_circle :
    (i n : ℕ) → i < n → ((i + 1 ≡ n) × ((i + 1) % n ≡ 0)) ⊎ ((i + 1 < n) × ((i + 1) % n ≡ i + 1))
next_in_circle i n h = grind arith

-- After an accepted message the turn passes on, and the round with it after the last participant.
next_turn :
    (ch : Channel)
    → ch.current_speaker_idx < length ch.participants
    → ch.current_round + 1 < u32_mod
    → ((following ch ≡ 0)
        × (round_after ch ≡ ch.current_round + 1)
        × (ch.current_speaker_idx + 1 ≡ length ch.participants))
      ⊎ ((following ch ≡ ch.current_speaker_idx + 1)
          × (round_after ch ≡ ch.current_round)
          × (ch.current_speaker_idx + 1 < length ch.participants))
next_turn ch h small =
    ground
      (arith, next_in_circle ch.current_speaker_idx (length ch.participants) h, mod-eq_of_lt small)

HasFloor→turn :
    (ch : Channel) (p : JobId)
    → HasFloor ch p
    → ch.mode ≡ turn_based
    → get_elem? ch.participants ch.current_speaker_idx ≡ some p
HasFloor→turn ch p (_, _, turn) t = subst (λ mode. IsTurn mode ch p) t turn

module _ {max : ℕ} {cut : Bool} {ch : Channel} (v : IsConversation max cut ch) (now : Time)
    (from_job : JobId) (content : String) (floor : HasFloor ch from_job) where
  small : (ch.current_round < max) × (ch.current_round + 1 < u32_mod)
  small = let g = v.going floor.0 in (g.0, omega (arith, g.0, v.in_range))

  abbrev with_it : Bool → Channel
  with_it last = with_message now from_job content last ch

  with_it-counted :
      (last : Bool)
      → length (with_it last).history
        ≡ (with_it last).current_round * length (with_it last).participants
          + (with_it last).current_speaker_idx
  with_it-counted last =
      let longer = length-append ch.history (
        record { from_job = from_job; content = content; timestamp = now; round = ch.current_round }
        ∷ []) in
      elim (next_turn ch v.speaker small.1) [
        | inl (idx, round, whole) ↦ rw (round, idx) (omega (arith, longer, v.counted, whole))
        | inr (idx, round, more) ↦ rw (round, idx) (omega (arith, longer, v.counted))
      ]

  with_it-bounds :
      (following ch < length ch.participants)
      × ((round_after ch < max) ⊎ ((round_after ch ≡ max) × (following ch ≡ 0)))
  with_it-bounds = elim (next_turn ch v.speaker small.1) [
    | inl (idx, round, whole) ↦ (omega (arith, idx, v.speaker), ground (arith, idx, round, small.0))
    | inr (idx, round, more) ↦ (omega (arith, idx, more), inl (omega (arith, round, small.0)))
  ]

  with_it-turns :
      (last : Bool) (i : ℕ) (x : ChannelMessage)
      → get_elem? (with_it last).history i ≡ some x
      → InTurn (with_it last) i x
  with_it-turns last i x e = elim (get_elem?-snoc ch.history _ i x e) [
    | inl old ↦ v.turns i x old
    | inr (end, new) ↦ (
      ch.current_round,
      ch.current_speaker_idx,
      end ∙ v.counted,
      v.speaker,
      ap (λ (z : ChannelMessage). z.round) (sym new),
      λ t. HasFloor→turn ch from_job floor t ∙ ap (λ (z : ChannelMessage). some z.from_job) new,
    )
  ]

  ended-IsConversation : IsLast ch → IsConversation max cut (with_it true)
  ended-IsConversation (limit, set, le) = record {
    limit = v.limit;
    in_range = v.in_range;
    speaker = with_it-bounds.0;
    counted = with_it-counted true;
    within = with_it-bounds.1;
    going = λ e. cc;
    over = λ e. (refl, λ c. ground (arith, with_it-bounds.1, set, v.limit, le));
    turns = with_it-turns true;
  }

  passed-IsConversation : ¬ IsLast ch → IsConversation max cut (with_it false)
  passed-IsConversation more = record {
    limit = v.limit;
    in_range = v.in_range;
    speaker = with_it-bounds.0;
    counted = with_it-counted false;
    within = with_it-bounds.1;
    going = λ e.
        let (early, still_open, uncut) = v.going floor.0 in
        elim with_it-bounds.1 [
          | inl less ↦ (less, still_open, uncut)
          | inr (full, _) ↦ absurd (more (max, v.limit, omega (arith, full)))
        ];
    over = λ e. ground (arith, floor.0);
    turns = with_it-turns false;
  }

-- A conversation that is over is as good as one that is cut off.
over-IsConversation :
    {max : ℕ} {cut : Bool} {ch : Channel}
    → IsConversation max cut ch
    → ch.active ≡ false
    → (b : Bool) → IsConversation max (cut || b) ch
over-IsConversation v quiet b = record {
  limit = v.limit;
  in_range = v.in_range;
  speaker = v.speaker;
  counted = v.counted;
  within = v.within;
  going = λ e. ground (arith, e, quiet);
  over = λ e. ((v.over e).0, λ c. (v.over e).1 (ground (arith, c)));
  turns = v.turns;
}

-- A conversation that is cut off.
closed-IsConversation :
    {max : ℕ} {cut : Bool} {ch : Channel}
    → IsConversation max cut ch
    → IsConversation max true (record ch { active = false; closed = true })
closed-IsConversation v = record {
  limit = v.limit;
  in_range = v.in_range;
  speaker = v.speaker;
  counted = v.counted;
  within = v.within;
  going = λ e. cc;
  over = λ e. (refl, λ c. cc);
  turns = v.turns;
}

-- A channel that has just been activated, with a limit of at least one round; a limit of 0 rounds,
-- which `validate_plan` accepts, is not considered.
pub record IsOpened (max : ℕ) (ch : Channel) : Type 0 where
  pub limit : ch.max_rounds ≡ some max
  pub in_range : max < u32_mod
  pub some_round : 0 < max
  pub has_participants : 0 < length ch.participants
  pub is_active : ch.active ≡ true
  pub is_open : ch.closed ≡ false
  pub round : ch.current_round ≡ 0
  pub speaker : ch.current_speaker_idx ≡ 0
  pub history : ch.history ≡ []

pub IsOpened-IsConversation :
    {max : ℕ} {ch : Channel} → IsOpened max ch → IsConversation max false ch
IsOpened-IsConversation {max} {ch} h = record {
  limit = h.limit;
  in_range = h.in_range;
  speaker = omega (arith, h.speaker, h.has_participants);
  within = inl (omega (arith, h.round, h.some_round));
  counted = rw (h.history, h.round, h.speaker) (omega arith);
  going = λ e. (omega (arith, h.round, h.some_round), h.is_open, refl);
  over = λ e. ground (arith, e, h.is_active);
  turns = λ i m e. ground (arith, ap (λ l. get_elem? l i) h.history);
}

module _ (channel_id : ChannelId) {max : ℕ} {cut : Bool} {ch : Channel}
    (v : IsConversation max cut ch) (e : Engine)
    (found : get_channel channel_id e.store ≡ some ch) where
  -- The channel of a state with other channels perhaps.
  abbrev GoesOn : Bool → Engine → Type 0
  GoesOn cut' e' =
      (c : Channel) × (get_channel channel_id e'.store ≡ some c)
      × IsConversation max cut' c
      × (c.participants ≡ ch.participants)

  said-GoesOn :
      (now : Time) (from_job : JobId) (content : String)
      → GoesOn cut (route_channel_message now channel_id from_job content e).0
  said-GoesOn now from_job content =
      elim (route_exact now channel_id from_job content e ch found).0 [
        | refused silent same action ↦ (ch, same, v, refl)
        | ended floor last kept action ↦ (
          with_message now from_job content true ch,
          kept,
          ended-IsConversation v now from_job content floor last,
          refl,
        )
        | passed floor more kept action ↦ (
          with_message now from_job content false ch,
          kept,
          passed-IsConversation v now from_job content floor more,
          refl,
        )
      ]

  closed-stored :
      get_channel channel_id (modify_channel channel_id close_channel e.store)
      ≡ some (record ch { active = false; closed = true })
  unfolding modify_channel close_channel
  closed-stored = ground (
    arith,
    found,
    get-modify channel_id channel_id close_channel e.store.channels,
    str_eq_refl channel_id,
  )

  done-GoesOn :
      (from_job : JobId)
      → GoesOn
          (cut || contains from_job ch.participants)
          (handle_channel_done channel_id from_job e).0
  unfolding handle_channel_done
  done-GoesOn from_job = elim (Bool-cases ch.active) [
    | inr quiet ↦
        rw (found, handle_channel_done, quiet)
          (ch, found, over-IsConversation v quiet (contains from_job ch.participants), refl)
    | inl on ↦ elim (Bool-cases (contains from_job ch.participants)) [
      | inl member ↦
          rw (found, handle_channel_done, on, member)
            (
              record ch { active = false; closed = true },
              closed-stored,
              subst (λ b. IsConversation max b (record ch { active = false; closed = true }))
                  (ground arith) (closed-IsConversation v),
              refl,
            )
      | inr foreign ↦
          rw (found, handle_channel_done, on, foreign)
            (ch, found, subst (λ b. IsConversation max b ch) (ground arith) v, refl)
    ]
  ]

  perform-GoesOn :
      (call : ChannelCall) → GoesOn (cut || is_end ch.participants call) (perform channel_id call e)
  unfolding perform handle_channel_peer_failure
  perform-GoesOn (said now from_job content) =
      subst (λ b. GoesOn b (route_channel_message now channel_id from_job content e).0)
        (ground arith) (said-GoesOn now from_job content)
  perform-GoesOn (done from_job) = done-GoesOn from_job
  perform-GoesOn (peer_failed failed_job) =
      rw (perform, found, handle_channel_peer_failure)
        (
          record ch { active = false; closed = true },
          closed-stored,
          subst (λ b. IsConversation max b (record ch { active = false; closed = true }))
              (ground arith) (closed-IsConversation v),
          refl,
        )

-- Any calls about a channel keep its conversation in order.
pub perform_all-GoesOn :
    (channel_id : ChannelId) (max : ℕ) (cut : Bool) (calls : List ChannelCall) (ch : Channel)
    (e : Engine)
    → IsConversation max cut ch
    → get_channel channel_id e.store ≡ some ch
    → (c : Channel) × (get_channel channel_id (perform_all channel_id calls e).store ≡ some c)
      × IsConversation max (cut || any (is_end ch.participants) calls) c
      × (c.participants ≡ ch.participants)
unfolding perform_all
perform_all-GoesOn channel_id max cut [] ch e v found =
    (ch, found, subst (λ b. IsConversation max b ch) (ground arith) v, refl)
perform_all-GoesOn channel_id max cut (call ∷ calls) ch e v found =
    let (c, stored, u, same) = perform-GoesOn channel_id v e found call in
    let (d, at_end, t, alike) =
      perform_all-GoesOn channel_id max (cut || is_end ch.participants call) calls c
        (perform channel_id call e) u stored in
    (d, at_end, subst (λ b. IsConversation max b d) (ground (arith, same)) t, alike ∙ same)
