-- ===== src/Daemon/Workers/Spawning.antt =====
-- src/daemon.rs: the loop that spawns the ready jobs ends, and what is done for workers and channels
-- keeps the engine bounded.
use zeptopm.Base.{
  ℕ, zero, suc, ◌+◌, ◌<◌, ◌≡◌, refl, sym, ap, ◌∙◌, subst, arith, none, List, [], ◌∷◌, length, map,
  Option-cases, inl, inr,
}
use zeptopm.Types.{
  JobId, ChannelId, Time, Job, Channel, ChannelAction, send_to, broadcast, close, kill_participants,
  notify_peers, no_op,
}
use zeptopm.Store.{channels_for_job}
use zeptopm.Engine.{Engine, Env, next_job, mark_running}
use zeptopm.Engine.Calls.{next, start, fail, activate, peer_failure, step}
use zeptopm.Engine.Bounds.{IsBounded, step-IsBounded}
use zeptopm.Engine.Queue.{next_job_shorter}
use zeptopm.Engine.Channels.{handle_channel_peer_failure}
use zeptopm.Daemon.World.{World, Host}
use zeptopm.Daemon.Workers.{
  spawn_job_worker, spawn_ready, activate_channels, stop_worker, kill_peers, fail_channels,
  handle_channel_peer_failures, act_on_failure,
}

pub spawn_job_worker-engine :
    (host : Host) (now : Time) (job : Job) (w : World)
    → (spawn_job_worker host now job w).engine ≡ w.engine
unfolding spawn_job_worker
spawn_job_worker-engine host now job w = ground arith

mark_running-queue :
    (env : Env) (k : JobId) (e : Engine) → (mark_running env k e).ready_queue ≡ e.ready_queue
unfolding mark_running
mark_running-queue env k e = ground arith

-- One round of the loop.
abbrev spawned : Env → Host → Job → World → World
spawned env host job w =
    spawn_job_worker host env.instant job
      (record w { engine = mark_running env job.job_id (next_job w.engine).0 })

spawned-queue :
    (env : Env) (host : Host) (job : Job) (w : World)
    → (spawned env host job w).engine.ready_queue ≡ (next_job w.engine).0.ready_queue
spawned-queue env host job w =
    ap (λ (e : Engine). e.ready_queue) (spawn_job_worker-engine host env.instant job _)
    ∙ mark_running-queue env job.job_id (next_job w.engine).0

-- The loop that spawns the ready jobs ends: as many rounds as the queue has ids, and one to see that
-- there is no more, are as good as any larger number of them.
pub spawn_ready_ends :
    (rounds more : ℕ) (env : Env) (host : Host) (w : World)
    → length w.engine.ready_queue < rounds
    → spawn_ready (rounds + more) env host w ≡ spawn_ready rounds env host w
unfolding spawn_ready
spawn_ready_ends zero more env host w h = absurd (omega (arith, h))
spawn_ready_ends (suc rounds) more env host w h =
    let same : suc rounds + more ≡ suc (rounds + more) = omega arith in
    elim (Option-cases (next_job w.engine).1) [
      | inl idle ↦ rw (same, spawn_ready, idle) refl
      | inr (job, taken) ↦
          let shorter = next_job_shorter w.engine job taken in
          let queue = ap length (spawned-queue env host job w) in
          rw (same, spawn_ready, taken)
            (spawn_ready_ends rounds more env host (spawned env host job w)
              (omega (arith, shorter, queue, h)))
    ]

pub spawn_ready-IsBounded :
    {limit : ℕ} (rounds : ℕ) (env : Env) (host : Host) (w : World)
    → IsBounded limit w.engine
    → IsBounded limit (spawn_ready rounds env host w).engine
unfolding spawn_ready step
spawn_ready-IsBounded zero env host w h = h
spawn_ready-IsBounded (suc rounds) env host w h =
    let taken = step-IsBounded (env, next) (w.engine, 0) h in
    elim (Option-cases (next_job w.engine).1) [
      | inl idle ↦ rw (idle, spawn_ready) taken
      | inr (job, found) ↦
          let started = step-IsBounded (env, start job.job_id) ((next_job w.engine).0, 0) taken in
          rw (found, spawn_ready)
            (spawn_ready-IsBounded rounds env host (spawned env host job w)
              (subst (IsBounded _) (sym (spawn_job_worker-engine host env.instant job _)) started))
    ]

pub activate_channels-IsBounded :
    {limit : ℕ} (w : World)
    → IsBounded limit w.engine
    → IsBounded limit (activate_channels w).engine
unfolding activate_channels step
activate_channels-IsBounded w h =
    step-IsBounded (record { system = 0; instant = 0; home = none }, activate) (w.engine, 0) h

pub stop_worker-engine : (k : JobId) (w : World) → (stop_worker k w).engine ≡ w.engine
unfolding stop_worker
stop_worker-engine k w = ground arith

kill_peers-IsBounded :
    {limit : ℕ} (env : Env) (failed_id : JobId) (ks : List JobId) (w : World)
    → IsBounded limit w.engine
    → IsBounded limit (kill_peers env failed_id ks w).engine
unfolding kill_peers step
kill_peers-IsBounded env failed_id [] w h = h
kill_peers-IsBounded env failed_id (k ∷ ks) w h = kill_peers-IsBounded env failed_id ks _ (
    step-IsBounded (env, fail k _) ((stop_worker k w).engine, 0)
      (subst (IsBounded _) (sym (stop_worker-engine k w)) h))

act_on_failure-IsBounded :
    {limit : ℕ} (env : Env) (failed_id : JobId) (action : ChannelAction) (w : World)
    → IsBounded limit w.engine
    → IsBounded limit (act_on_failure env failed_id action w).engine
act_on_failure-IsBounded env failed_id (send_to k message) w h = h
act_on_failure-IsBounded env failed_id (broadcast ks message) w h = h
act_on_failure-IsBounded env failed_id (close c) w h = h
act_on_failure-IsBounded env failed_id (kill_participants ks) w h =
    kill_peers-IsBounded env failed_id ks w h
act_on_failure-IsBounded env failed_id (notify_peers ks message) w h = h
act_on_failure-IsBounded env failed_id no_op w h = h

fail_channels-IsBounded :
    {limit : ℕ} (env : Env) (k : JobId) (cs : List ChannelId) (w : World)
    → IsBounded limit w.engine
    → IsBounded limit (fail_channels env k cs w).engine
unfolding fail_channels step
fail_channels-IsBounded env k [] w h = h
fail_channels-IsBounded env k (c ∷ cs) w h = fail_channels-IsBounded env k cs _ (
    act_on_failure-IsBounded env k (handle_channel_peer_failure c k w.engine).1 _
      (step-IsBounded (env, peer_failure c k) (w.engine, 0) h))

pub failures-IsBounded :
    {limit : ℕ} (env : Env) (k : JobId) (w : World)
    → IsBounded limit w.engine
    → IsBounded limit (handle_channel_peer_failures env k w).engine
unfolding handle_channel_peer_failures
failures-IsBounded env k w h =
    fail_channels-IsBounded env k
      (map (λ (c : Channel). c.channel_id) (channels_for_job k w.engine.store)) w h
