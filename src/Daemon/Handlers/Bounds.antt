-- ===== src/Daemon/Handlers/Bounds.antt =====
-- src/daemon.rs: each event of a worker keeps the engine bounded.
use zeptopm.Base.{
  ℕ, String, ◌≡◌, refl, sym, subst, arith, List, [], ◌∷◌, Bool-cases, inl, inr, str_eq, ◌∙◌, ◌||◌,
}
use zeptopm.Types.{
  JobId, ChannelId, ChannelAction, send_to, broadcast, close, kill_participants, notify_peers,
  no_op,
}
use zeptopm.Store.Laws.{create_artifact-IsWellFormed}
use zeptopm.Engine.{Env, record_heartbeat}
use zeptopm.Engine.Calls.{say, done, step}
use zeptopm.Engine.Bounds.{
  IsBounded, step-IsBounded, keeps, mark_failed-IsBounded, record_heartbeat-IsBounded,
}
use zeptopm.Engine.Channels.{route_channel_message, handle_channel_done}
use zeptopm.Json.{Json, str_or_empty}
use zeptopm.Daemon.World.{World, Host}
use zeptopm.Daemon.Workers.Spawning.{failures-IsBounded}
use zeptopm.Daemon.Closing.Bounds.{closed-IsBounded}
use zeptopm.Daemon.Handlers.{
  on_job_failed, fail_job, deliver, deliver_all, act_on_message, on_channel_message, act_on_done,
  on_channel_done, event_artifact, on_artifact_produced, on_heartbeat, on_event,
}
use zeptopm.Daemon.Handlers.Completion.{Bounded, BoundedIf, settle-Bounded, completed-Bounded}

pub fail_job-Bounded :
    {limit : ℕ} (env : Env) (host : Host) (job_id : JobId) (error : String) (w : World)
    → Bounded limit w
    → Bounded limit (fail_job env host job_id error w)
unfolding fail_job
fail_job-Bounded env host job_id error w h =
    mark_failed-IsBounded env job_id error (failures-IsBounded env job_id w h)

failed-Bounded :
    {limit : ℕ} (env : Env) (host : Host) (event : Json) (w : World)
    → Bounded limit w
    → Bounded limit (on_job_failed env host event w)
unfolding on_job_failed
failed-Bounded env host event w h = settle-Bounded env host _ _ (fail_job-Bounded env host _ _ _ h)

deliver-engine :
    (c : ChannelId) (message : String) (k : JobId) (w : World)
    → (deliver c message k w).engine ≡ w.engine
deliver-engine c message k w = ground arith

deliver_all-engine :
    (c : ChannelId) (message : String) (ks : List JobId) (w : World)
    → (deliver_all c message ks w).engine ≡ w.engine
unfolding deliver_all
deliver_all-engine c message [] w = refl
deliver_all-engine c message (k ∷ ks) w =
    deliver_all-engine c message ks (deliver c message k w) ∙ deliver-engine c message k w

act_on_message-Bounded :
    {limit : ℕ} (env : Env) (host : Host) (c : ChannelId) (action : ChannelAction) (w : World)
    → Bounded limit w
    → Bounded limit (act_on_message env host c action w)
unfolding act_on_message
act_on_message-Bounded env host c (send_to k message) w h =
    subst (IsBounded _) (sym (deliver-engine c message k w)) h
act_on_message-Bounded env host c (broadcast ks message) w h =
    subst (IsBounded _) (sym (deliver_all-engine c message ks w)) h
act_on_message-Bounded env host c (close closed_id) w h = closed-IsBounded env host closed_id w h
act_on_message-Bounded env host c (kill_participants ks) w h = h
act_on_message-Bounded env host c (notify_peers ks message) w h = h
act_on_message-Bounded env host c no_op w h = h

message-Bounded :
    {limit : ℕ} (env : Env) (host : Host) (event : Json) (w : World)
    → Bounded limit w
    → Bounded limit (on_channel_message env host event w)
unfolding on_channel_message step
message-Bounded env host event w h =
    let c = str_or_empty "channel_id" event in
    let from = str_or_empty "from_job" event in
    let content = str_or_empty "content" event in
    settle-Bounded env host _ _ (
      act_on_message-Bounded env host c (route_channel_message env.system c from content w.engine).1
        _ (step-IsBounded (env, say c from content) (w.engine, 0) h))

act_on_done-Bounded :
    {limit : ℕ} (env : Env) (host : Host) (c : ChannelId) (action : ChannelAction) (w : World)
    → Bounded limit w
    → Bounded limit (act_on_done env host c action w)
unfolding act_on_done
act_on_done-Bounded env host c (send_to k message) w h = h
act_on_done-Bounded env host c (broadcast ks message) w h = h
act_on_done-Bounded env host c (close closed_id) w h = closed-IsBounded env host c w h
act_on_done-Bounded env host c (kill_participants ks) w h = h
act_on_done-Bounded env host c (notify_peers ks message) w h = h
act_on_done-Bounded env host c no_op w h = h

done-Bounded :
    {limit : ℕ} (env : Env) (host : Host) (event : Json) (w : World)
    → Bounded limit w
    → Bounded limit (on_channel_done env host event w)
unfolding on_channel_done step
done-Bounded env host event w h =
    let c = str_or_empty "channel_id" event in
    let from = str_or_empty "from_job" event in
    settle-Bounded env host _ _ (
      act_on_done-Bounded env host c (handle_channel_done c from w.engine).1 _
        (step-IsBounded (env, done c from) (w.engine, 0) h))

artifact-Bounded :
    {limit : ℕ} (env : Env) (event : Json) (w : World)
    → Bounded limit w
    → Bounded limit (on_artifact_produced env event w)
unfolding on_artifact_produced
artifact-Bounded env event w h =
    keeps h _ (create_artifact-IsWellFormed h.store (event_artifact env event w)) refl refl refl

heartbeat-Bounded :
    {limit : ℕ} (env : Env) (job_id : JobId) (w : World)
    → Bounded limit w
    → IsBounded limit (record_heartbeat env job_id w.engine)
heartbeat-Bounded env job_id w h = record_heartbeat-IsBounded h env job_id

pub event-Bounded :
    {limit : ℕ} (env : Env) (host : Host) (event : Json) (w : World)
    → Bounded limit w
    → BoundedIf limit (on_event env host event w)
unfolding on_event on_heartbeat
event-Bounded env host event w h =
    let is = λ (t : String). str_eq (str_or_empty "type" event) t in
    elim (Bool-cases (is "heartbeat" || is "progress")) [
      | inl e ↦ rw e (heartbeat-Bounded env (str_or_empty "job_id" event) w h)
      | inr a ↦ elim (Bool-cases (is "job_completed")) [
        | inl e ↦ rw (a, e) (completed-Bounded env host event w h)
        | inr b ↦ elim (Bool-cases (is "job_failed")) [
          | inl e ↦ rw (a, b, e) (failed-Bounded env host event w h)
          | inr c ↦ elim (Bool-cases (is "channel_message")) [
            | inl e ↦ rw (a, b, c, e) (message-Bounded env host event w h)
            | inr d ↦ elim (Bool-cases (is "channel_done")) [
              | inl e ↦ rw (a, b, c, d, e) (done-Bounded env host event w h)
              | inr f ↦ elim (Bool-cases (is "artifact_produced")) [
                | inl e ↦ rw (a, b, c, d, f, e) (artifact-Bounded env event w h)
                | inr g ↦ rw (a, b, c, d, f, g) h
              ]
            ]
          ]
        ]
      ]
    ]
