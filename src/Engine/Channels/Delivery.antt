-- ===== src/Engine/Channels/Delivery.antt =====
-- src/orchestrator/engine.rs, `route_channel_message`: who may speak on a channel, what is recorded
-- and who receives it, in the words of the channel's fields.
use zeptopm.Base.{
  ℕ, zero, suc, ◌+◌, ◌%◌, ◌<◌, ◌≤◌, String, ◌≡◌, refl, arith, Bool, true, false, not, ◌&&◌,
  if◌then◌else◌, ◌==◌, Option, some, List, [], ◌∷◌, ◌++◌, map, filter, length, is_empty, get_elem?,
  contains, contains-filter, get-modify, modify, str_eq, str_eq_refl, str_eq→eq, Bool-cases,
  Option-cases, inl, inr, u32_mod,
}
use zeptopm.Types.{
  JobId, ChannelId, Time, Channel, ChannelMode, turn_based, stream, ChannelAction, send_to,
  broadcast, close, kill_participants, notify_peers, no_op,
}
use zeptopm.Store.{get_channel, modify_channel}
use zeptopm.Engine.{Engine}
use zeptopm.Engine.Channels.{
  may_speak, is_last_round, next_speaker, next_round, record_message, close_channel, stream_action,
  delivery, route_channel_message,
}
use zeptopm.Engine.Channels.Routing.{SameButChannels, route-keeps}

-- The job is the channel's current speaker, where the channel takes turns.
abbrev pub IsTurn : ChannelMode → Channel → JobId → Type 0
IsTurn turn_based ch from_job = get_elem? ch.participants ch.current_speaker_idx ≡ some from_job
IsTurn stream ch from_job = Unit {0}

-- The channel takes a message of this job now.
abbrev pub HasFloor : Channel → JobId → Type 0
HasFloor ch from_job =
    (ch.active ≡ true) × (contains from_job ch.participants ≡ true) × IsTurn ch.mode ch from_job

-- The participant after the current speaker, in a circle.
abbrev pub following : Channel → ℕ
following ch = (ch.current_speaker_idx + 1) % length ch.participants

-- A round ends when the circle is closed; the counter is a `u32`.
abbrev pub round_after : Channel → ℕ
round_after ch = if following ch == 0 then (ch.current_round + 1) % u32_mod else ch.current_round

-- The limit on the rounds is reached by the next message.
abbrev pub IsLast : Channel → Type 0
IsLast ch = (max : ℕ) × (ch.max_rounds ≡ some max) × (max ≤ round_after ch)

-- The channel with the message at the end of its history, still active or closed.
abbrev pub with_message : Time → JobId → String → Bool → Channel → Channel
with_message now from_job content last ch = record ch {
  history =
      ch.history
      ++ record {
        from_job = from_job;
        content = content;
        timestamp = now;
        round = ch.current_round;
      }
        ∷ [];
  current_speaker_idx = following ch;
  current_round = round_after ch;
  active = if last then false else ch.active;
  closed = if last then true else ch.closed;
}

-- What each job receives by an action.
abbrev pub deliveries : ChannelAction → List (JobId × String)
deliveries (send_to p content) = (p, content) ∷ []
deliveries (broadcast ps content) = map (λ (p : JobId). (p, content)) ps
deliveries (close _) = []
deliveries (kill_participants _) = []
deliveries (notify_peers ps content) = map (λ (p : JobId). (p, content)) ps
deliveries no_op = []

-- The message goes to the participant whose turn is next, or to every participant but the sender.
abbrev pub IsDelivered : ChannelMode → Channel → JobId → String → ChannelAction → Type 0
IsDelivered turn_based ch from_job content action =
    (q : JobId) × (get_elem? ch.participants (following ch) ≡ some q)
    × (deliveries action ≡ (q, content) ∷ [])
IsDelivered stream ch from_job content action =
    (receivers : List JobId) × ((p : JobId)
      → contains p receivers ≡ (contains p ch.participants && not (str_eq p from_job)))
    × (deliveries action ≡ map (λ (p : JobId). (p, content)) receivers)

-- What becomes of a message: the channel of that id afterwards, and the action.
pub data Routed (now : Time) (channel_id : ChannelId) (from_job : JobId) (content : String)
    (ch : Channel) (after : Option Channel) (action : ChannelAction) : Type 0 where
  refused :
      ¬ HasFloor ch from_job
      → after ≡ some ch
      → action ≡ no_op
      → Routed now channel_id from_job content ch after action
  ended :
      HasFloor ch from_job
      → IsLast ch
      → after ≡ some (with_message now from_job content true ch)
      → action ≡ close channel_id
      → Routed now channel_id from_job content ch after action
  passed :
      HasFloor ch from_job
      → ¬ IsLast ch
      → after ≡ some (with_message now from_job content false ch)
      → IsDelivered ch.mode ch from_job content action
      → Routed now channel_id from_job content ch after action

may_speak→HasFloor : (ch : Channel) (p : JobId) → may_speak ch p ≡ true → HasFloor ch p
unfolding may_speak
may_speak→HasFloor ch p h = (ground arith, ground arith, turn ch.mode refl)
  where
    turn : (m : ChannelMode) → ch.mode ≡ m → IsTurn m ch p
    turn stream e = tt
    turn turn_based e = elim (Option-cases (get_elem? ch.participants ch.current_speaker_idx)) [
      | inl none' ↦ ground (arith, none', e)
      | inr (q, e') ↦ ground (arith, e', e, str_eq→eq q p)
    ]

not_empty : (p : JobId) (ps : List JobId) → contains p ps ≡ true → is_empty ps ≡ false
unfolding contains
not_empty p [] h = cc
not_empty p (x ∷ ps) h = refl

HasFloor→may_speak : (ch : Channel) (p : JobId) → HasFloor ch p → may_speak ch p ≡ true
unfolding may_speak
HasFloor→may_speak ch p (on, member, t) = turn ch.mode refl t
  where
    turn : (m : ChannelMode) → ch.mode ≡ m → IsTurn m ch p → may_speak ch p ≡ true
    turn stream e t = ground (arith, on, member, e, not_empty p ch.participants member)
    turn turn_based e t =
        ground (arith, on, member, e, t, not_empty p ch.participants member, str_eq_refl p)

limit_reached→IsLast : (ch : Channel) → is_last_round ch ≡ true → IsLast ch
unfolding next_round next_speaker
limit_reached→IsLast ch h = elim (Option-cases ch.max_rounds) [
  | inl gone ↦ absurd (ground (arith, gone, h))
  | inr (max, found) ↦ (max, found, ground (arith, found, h))
]

IsLast→limit_reached : (ch : Channel) → IsLast ch → is_last_round ch ≡ true
unfolding next_round next_speaker
IsLast→limit_reached ch (max, found, le) = ground (arith, found, le)

pub get_elem?-contains :
    (ps : List JobId) (i : ℕ)
    → i < length ps
    → (p : JobId) × (get_elem? ps i ≡ some p) × (contains p ps ≡ true)
unfolding contains
get_elem?-contains [] i h = elim h [ ]
get_elem?-contains (p ∷ ps) zero h = (p, refl, ground (arith, str_eq_refl p))
get_elem?-contains (p ∷ ps) (suc i) h =
    let (q, e, t) = get_elem?-contains ps i (omega arith) in (q, e, ground (arith, t))

-- There is a participant after any of them.
following-found :
    (ps : List JobId) (i : ℕ)
    → is_empty ps ≡ false
    → (q : JobId) × (get_elem? ps (i % length ps) ≡ some q)
following-found [] i h = cc
following-found (p ∷ ps) i h =
    let (q, found, _) = get_elem?-contains (p ∷ ps) (i % suc (length ps)) (grind arith) in
    (q, found)

stream_deliveries :
    (ps : List JobId) (content : String)
    → deliveries (stream_action ps content) ≡ map (λ (p : JobId). (p, content)) ps
unfolding stream_action
stream_deliveries [] content = refl
stream_deliveries (p ∷ []) content = refl
stream_deliveries (p ∷ q ∷ ps) content = refl

delivery-IsDelivered :
    (ch : Channel) (from_job : JobId) (content : String)
    → contains from_job ch.participants ≡ true
    → IsDelivered ch.mode ch from_job content (delivery ch from_job content)
unfolding delivery next_speaker
delivery-IsDelivered ch from_job content member = to ch.mode refl
  where
    to :
        (m : ChannelMode)
        → ch.mode ≡ m
        → IsDelivered m ch from_job content (delivery ch from_job content)
    to turn_based e =
        let (q, found) =
          following-found ch.participants (ch.current_speaker_idx + 1)
            (not_empty from_job ch.participants member) in
        (q, found, rw (e, found) refl)
    to stream e = (
      filter (λ p. not (str_eq p from_job)) ch.participants,
      λ p. contains-filter p (λ p. not (str_eq p from_job)) ch.participants,
      rw e (stream_deliveries (filter (λ p. not (str_eq p from_job)) ch.participants) content),
    )

module _ (now : Time) (channel_id : ChannelId) (from_job : JobId) (content : String) (e : Engine)
    (ch : Channel) (found : get_channel channel_id e.store ≡ some ch) where
  recorded-stored :
      get_channel channel_id
        (modify_channel channel_id (record_message now from_job content) e.store)
      ≡ some (with_message now from_job content false ch)
  unfolding modify_channel record_message next_round next_speaker
  recorded-stored = ground (
    arith,
    found,
    str_eq_refl channel_id,
    get-modify channel_id channel_id (record_message now from_job content) e.store.channels,
  )

  closed-stored :
      get_channel channel_id (
        modify_channel channel_id close_channel
          (modify_channel channel_id (record_message now from_job content) e.store))
      ≡ some (with_message now from_job content true ch)
  unfolding modify_channel close_channel
  closed-stored = ground (
    arith,
    recorded-stored,
    str_eq_refl channel_id,
    get-modify channel_id channel_id close_channel
        (modify channel_id (record_message now from_job content) e.store.channels),
  )

  routed :
      let (e', action) = route_channel_message now channel_id from_job content e in
      Routed now channel_id from_job content ch (get_channel channel_id e'.store) action
  unfolding route_channel_message
  routed = elim (Bool-cases (may_speak ch from_job)) [
    | inr silent ↦
        rw (found, route_channel_message, silent)
          (refused (λ f. ground (arith, silent, HasFloor→may_speak ch from_job f)) found refl)
    | inl turn ↦
        let floor = may_speak→HasFloor ch from_job turn in
        elim (Bool-cases (is_last_round ch)) [
          | inl last ↦
              rw (found, route_channel_message, turn, last)
                (ended floor (limit_reached→IsLast ch last) closed-stored refl)
          | inr more ↦
              rw (found, route_channel_message, turn, more)
                (passed floor (λ l. ground (arith, more, IsLast→limit_reached ch l)) recorded-stored
                  (delivery-IsDelivered ch from_job content floor.1))
        ]
  ]

  others-stay :
      (k : ChannelId)
      → str_eq channel_id k ≡ false
      → get_channel k (route_channel_message now channel_id from_job content e).0.store
        ≡ get_channel k e.store
  unfolding route_channel_message modify_channel
  others-stay k other = ground (
    arith,
    found,
    other,
    get-modify k channel_id (record_message now from_job content) e.store.channels,
    get-modify k channel_id close_channel
        (modify channel_id (record_message now from_job content) e.store.channels),
  )

  -- A message on a channel of the store is accepted exactly if the channel is active, the sender is
  -- one of its participants and, where the channel takes turns, its current speaker; otherwise
  -- nothing changes and nothing is to be done. An accepted message is recorded at the end of the
  -- history with the round it was said in, the index passes to the next participant in the circle
  -- and the round advances when the circle is closed. If the round reached is the channel's limit
  -- the channel is closed and the action is to close it; if not, the action delivers the message,
  -- on a turn-based channel to the next participant and on a stream to all participants but the
  -- sender. Other channels, runs, jobs, artifacts, the queue and the active jobs stay.
  pub route_exact :
      let (e', action) = route_channel_message now channel_id from_job content e in
      Routed now channel_id from_job content ch (get_channel channel_id e'.store) action
      × ((k : ChannelId)
          → str_eq channel_id k ≡ false
          → get_channel k e'.store ≡ get_channel k e.store)
      × SameButChannels e e'
  route_exact = (routed, others-stay, route-keeps now channel_id from_job content e)
