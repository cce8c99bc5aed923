-- ===== src/Engine/Channels/Activation.antt =====
-- src/orchestrator/engine.rs, `activate_ready_channels`: the loops over the runs and their channels
-- have the effect of one simultaneous update.
use zeptopm.Base.{
  ◌≡◌, refl, ap, fun_ext, ◌∙◌, arith, Bool, true, false, ◌&&◌, if◌then◌else◌, some, List, [], ◌∷◌,
  map, filter, all, all_cong, filter-filter, values, contains, contains-ids_where, str_eq,
  str_eq→eq, str_eq_comm, is_some_and, map_option, get, get-modify, Bool-cases, Option-cases, inl,
  inr,
}
use zeptopm.Types.{RunId, ChannelId, Channel, Job, JobStatus, job_status_eq}
use zeptopm.Engine.Channels.Routing.{SameButChannels}
use zeptopm.Store.{RunStore, get_channel, modify_channel, list_run_channels}
use zeptopm.Store.Laws.{
  IsWellFormed, channel_key, get_channel-modify_channel, modify_channel-IsWellFormed,
}
use zeptopm.Engine.{Engine}
use zeptopm.Engine.Channels.{
  is_running, set_active, is_ready, is_waiting, activate_channels, activate_runs, dedup,
  activate_ready_channels,
}

contains-dedup : (r : RunId) (rs : List RunId) → contains r (dedup rs) ≡ contains r rs
unfolding dedup contains
contains-dedup r [] = refl
contains-dedup r (x ∷ xs) = ground (arith, contains-dedup r xs, contains-dedup x xs, str_eq→eq x r)

-- Activating a channel changes no channel's participants and no job.
is_ready-set_active :
    (s : RunStore) (c k : ChannelId) → is_ready (modify_channel c set_active s) k ≡ is_ready s k
unfolding modify_channel set_active
is_ready-set_active s c k = ground (arith, get-modify k c set_active s.channels)

activate_channels_lem :
    (s : RunStore) (ids : List ChannelId) (k : ChannelId)
    → get_channel k (activate_channels s ids).0 ≡ (
        if contains k ids && is_ready s k
        then map_option set_active (get_channel k s)
        else get_channel k s)
unfolding activate_channels contains set_active
activate_channels_lem s [] k = refl
activate_channels_lem s (c ∷ cs) k = elim (Bool-cases (is_ready s c)) [
  | inl yes' ↦ rw yes' (
      ground (
        arith,
        activate_channels_lem (modify_channel c set_active s) cs k,
        is_ready-set_active s c k,
        get_channel-modify_channel k c set_active s,
        str_eq→eq c k,
        yes',
        Option-cases (get_channel k s),
      ))
  | inr no' ↦ rw no' (ground (arith, activate_channels_lem s cs k, str_eq→eq c k, no'))
]

activate_channels-jobs :
    (s : RunStore) (ids : List ChannelId)
    → ((activate_channels s ids).0.jobs ≡ s.jobs)
      × ((activate_channels s ids).0.runs ≡ s.runs)
      × ((activate_channels s ids).0.artifacts ≡ s.artifacts)
unfolding activate_channels modify_channel
activate_channels-jobs s [] = (refl, refl, refl)
activate_channels-jobs s (c ∷ cs) =
    let s' = if is_ready s c then modify_channel c set_active s else s in
    ground (arith, activate_channels-jobs s' cs)

activate_channels-IsWellFormed :
    (ids : List ChannelId) (s : RunStore)
    → IsWellFormed s
    → IsWellFormed (activate_channels s ids).0
unfolding activate_channels
activate_channels-IsWellFormed [] s h = h
activate_channels-IsWellFormed (c ∷ cs) s h =
    activate_channels-IsWellFormed cs (if is_ready s c then modify_channel c set_active s else s)
      (here (is_ready s c))
  where
    here : (b : Bool) → IsWellFormed (if b then modify_channel c set_active s else s)
    here true = modify_channel-IsWellFormed h c set_active (λ ch. unfold set_active in refl)
    here false = h

-- A channel that the activation is to make active: neither active nor closed, of one of the runs,
-- its participants all running.
abbrev pub is_activatable : RunStore → List RunId → Channel → Bool
is_activatable s rs ch =
    contains ch.run_id rs && (is_waiting ch && all (is_running s) ch.participants)

abbrev pub activated : RunStore → List RunId → Channel → Channel
activated s rs ch = if is_activatable s rs ch then set_active ch else ch

-- One run of the loop over the runs.
activate_run :
    (s : RunStore) (r : RunId) (k : ChannelId)
    → IsWellFormed s
    → get_channel k
        (activate_channels s (map channel_key (filter is_waiting (list_run_channels r s)))).0
      ≡ map_option (activated s (r ∷ [])) (get_channel k s)
unfolding contains
activate_run s r k h =
    let ids = map channel_key (filter is_waiting (list_run_channels r s)) in
    let selected : contains k ids
        ≡ is_some_and (λ ch. str_eq ch.run_id r && is_waiting ch) (get_channel k s) =
      ap (λ chs. contains k (map channel_key chs))
        (filter-filter is_waiting (λ ch. str_eq ch.run_id r) (values s.channels))
      ∙ contains-ids_where channel_key (λ ch. str_eq ch.run_id r && is_waiting ch) k s.channels
          h.channels.0 h.channels.1 in
    elim (Option-cases (get_channel k s)) [
      | inl e ↦ ground (arith, activate_channels_lem s ids k, e)
      | inr (ch, e) ↦
          ground (arith, activate_channels_lem s ids k, selected, e, str_eq_comm ch.run_id r)
    ]

-- To be activated for one run and then for others is to be activated for them all.
activated_twice :
    (s s' : RunStore) (r : RunId) (rs : List RunId) (ch : Channel)
    → s'.jobs ≡ s.jobs
    → activated s' rs (activated s (r ∷ []) ch) ≡ activated s (r ∷ rs) ch
unfolding contains set_active is_waiting
activated_twice s s' r rs ch same = ground (
  arith,
  all_cong (is_running s') (is_running s) ch.participants (λ p.
      ap (λ m. is_some_and (λ (j : Job). job_status_eq j.status JobStatus.running) (get p m)) same),
)

activate_runs_lem :
    (rs : List RunId) (s : RunStore) (k : ChannelId)
    → IsWellFormed s
    → get_channel k (activate_runs s rs).0 ≡ map_option (activated s rs) (get_channel k s)
unfolding activate_runs contains
activate_runs_lem [] s k h = ground (arith, Option-cases (get_channel k s))
activate_runs_lem (r ∷ rs) s k h =
    let ids = map channel_key (filter is_waiting (list_run_channels r s)) in
    let s' = (activate_channels s ids).0 in
    let here = activate_run s r k h in
    let rest = activate_runs_lem rs s' k (activate_channels-IsWellFormed ids s h) in
    elim (Option-cases (get_channel k s)) [
      | inl e ↦ rest ∙ rw (here, e) refl
      | inr (ch, e) ↦
          rest
          ∙ rw (here, e) (ap some (activated_twice s s' r rs ch (activate_channels-jobs s ids).0))
    ]

activate_runs-jobs :
    (rs : List RunId) (s : RunStore)
    → ((activate_runs s rs).0.jobs ≡ s.jobs)
      × ((activate_runs s rs).0.runs ≡ s.runs)
      × ((activate_runs s rs).0.artifacts ≡ s.artifacts)
unfolding activate_runs
activate_runs-jobs [] s = (refl, refl, refl)
activate_runs-jobs (r ∷ rs) s =
    let ids = map channel_key (filter is_waiting (list_run_channels r s)) in
    ground (arith, activate_channels-jobs s ids, activate_runs-jobs rs (activate_channels s ids).0)

activated-dedup :
    (s : RunStore) (rs : List RunId) (ch : Channel) → activated s (dedup rs) ch ≡ activated s rs ch
activated-dedup s rs ch = ground (arith, contains-dedup ch.run_id rs)

-- Over a well-formed store, the activation makes active exactly the channels that are neither active
-- nor closed, belong to the run of an active job, and whose participants are all running; every
-- other lookup of a channel, and the jobs, runs, artifacts, queue and active jobs stay as they are.
pub activation_exact :
    (e : Engine)
    → IsWellFormed e.store
    → ((k : ChannelId)
        → get_channel k (activate_ready_channels e).0.store
          ≡ map_option (activated e.store (values e.active_jobs)) (get_channel k e.store))
      × SameButChannels e (activate_ready_channels e).0
unfolding activate_ready_channels
activation_exact e h = (
  λ k.
      activate_runs_lem (dedup (values e.active_jobs)) e.store k h
      ∙ ap (λ f. map_option f (get_channel k e.store))
          (fun_ext (λ ch. activated-dedup e.store (values e.active_jobs) ch)),
  ground (arith, activate_runs-jobs (dedup (values e.active_jobs)) e.store),
)

-- A closed channel is never made active again.
pub closed_stays :
    (e : Engine) (k : ChannelId) (ch : Channel)
    → IsWellFormed e.store
    → get_channel k e.store ≡ some ch
    → ch.closed ≡ true
    → get_channel k (activate_ready_channels e).0.store ≡ some ch
unfolding is_waiting
closed_stays e k ch h found closed = (activation_exact e h).0 k ∙ rw found (ground (arith, closed))

activate_runs-IsWellFormed :
    (rs : List RunId) (s : RunStore) → IsWellFormed s → IsWellFormed (activate_runs s rs).0
unfolding activate_runs
activate_runs-IsWellFormed [] s h = h
activate_runs-IsWellFormed (r ∷ rs) s h =
    let ids = map channel_key (filter is_waiting (list_run_channels r s)) in
    activate_runs-IsWellFormed rs (activate_channels s ids).0
      (activate_channels-IsWellFormed ids s h)

pub activate_ready_channels-IsWellFormed :
    (e : Engine) → IsWellFormed e.store → IsWellFormed (activate_ready_channels e).0.store
unfolding activate_ready_channels
activate_ready_channels-IsWellFormed e h =
    activate_runs-IsWellFormed (dedup (values e.active_jobs)) e.store h
