-- ===== src/Daemon/Closing/Bounds.antt =====
-- src/daemon.rs: the completion of the participants of a closed channel keeps the engine bounded.
use zeptopm.Base.{
  ℕ, String, refl, sym, subst, not, ◌&&◌, Option, List, [], ◌∷◌, Bool-cases, Option-cases, inl, inr,
}
use zeptopm.Types.{JobId, ChannelId, Job}
use zeptopm.Store.{get_channel}
use zeptopm.Store.Laws.{create_artifact-IsWellFormed}
use zeptopm.Scheduler.{gen_id}
use zeptopm.Engine.{Env}
use zeptopm.Engine.Calls.{complete, step}
use zeptopm.Engine.Bounds.{IsBounded, step-IsBounded, keeps}
use zeptopm.Daemon.World.{World, Host}
use zeptopm.Daemon.Workers.{stop_worker}
use zeptopm.Daemon.Workers.Spawning.{stop_worker-engine}
use zeptopm.Daemon.Closing.{
  collect_job_channels, persist_channel_artifact, synthesize_channel_artifact, runs, still_talks,
  complete_participant, complete_participants, complete_closed_channel_participants,
  channel_artifact,
}

persist-IsBounded :
    {limit : ℕ} (env : Env) (host : Host) (job : Job) (content : String) (w : World)
    → IsBounded limit w.engine
    → IsBounded limit (persist_channel_artifact env host job content w).0.engine
unfolding persist_channel_artifact
persist-IsBounded env host job content w h =
    let id = (gen_id "art" env.system w.counter).0 in
    let artifact = channel_artifact env job content id in
    elim (Bool-cases (host.can_write artifact.path)) [
      | inl e ↦
          rw (persist_channel_artifact, e)
            (keeps h _ (create_artifact-IsWellFormed h.store artifact) refl refl refl)
      | inr e ↦ rw (persist_channel_artifact, e) h
    ]

synthesize-IsBounded :
    {limit : ℕ} (env : Env) (host : Host) (job_id : JobId) (final_response : Option String)
    (w : World)
    → IsBounded limit w.engine
    → IsBounded limit (synthesize_channel_artifact env host job_id final_response w).0.engine
unfolding synthesize_channel_artifact
synthesize-IsBounded env host job_id final_response w h =
    elim (Option-cases (collect_job_channels w job_id)) [
      | inl none_of ↦ rw (none_of, synthesize_channel_artifact) h
      | inr ((job, channels), found) ↦
          rw (found, synthesize_channel_artifact) (persist-IsBounded env host job _ w h)
    ]

participant-IsBounded :
    {limit : ℕ} (env : Env) (host : Host) (c : ChannelId) (k : JobId) (w : World)
    → IsBounded limit w.engine
    → IsBounded limit (complete_participant env host c k w).engine
unfolding complete_participant step
participant-IsBounded env host c k w h = elim (Bool-cases (runs k w && not (still_talks c k w))) [
  | inl e ↦
      rw (complete_participant, e)
        (step-IsBounded (env, complete k _) (_, 0)
          (synthesize-IsBounded env host k _ (stop_worker k w)
            (subst (IsBounded _) (sym (stop_worker-engine k w)) h)))
  | inr e ↦ rw (complete_participant, e) h
]

participants-IsBounded :
    {limit : ℕ} (env : Env) (host : Host) (c : ChannelId) (ks : List JobId) (w : World)
    → IsBounded limit w.engine
    → IsBounded limit (complete_participants env host c ks w).engine
unfolding complete_participants
participants-IsBounded env host c [] w h = h
participants-IsBounded env host c (k ∷ ks) w h =
    participants-IsBounded env host c ks (complete_participant env host c k w)
      (participant-IsBounded env host c k w h)

pub closed-IsBounded :
    {limit : ℕ} (env : Env) (host : Host) (c : ChannelId) (w : World)
    → IsBounded limit w.engine
    → IsBounded limit (complete_closed_channel_participants env host c w).engine
unfolding complete_closed_channel_participants
closed-IsBounded env host c w h = elim (Option-cases (get_channel c w.engine.store)) [
  | inl gone ↦ rw (gone, complete_closed_channel_participants) h
  | inr (ch, found) ↦
      rw (found, complete_closed_channel_participants)
        (participants-IsBounded env host c ch.participants w h)
]
