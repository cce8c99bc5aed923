-- ===== src/Engine/Tests.antt =====
-- src/orchestrator/engine.rs: the theorems at concrete inputs.
use zeptopm.Base.{
  String, ◌≡◌, ◌≤◌, refl, arith, true, false, none, some, List, [], ◌∷◌, ◌*◌, ◌+◌, ◌↔◌, ◌⊎◌, any,
  length, get, modify, str_eq, contains, contains_key, Distinct, is_blank, insert, show_nat,
}
use zeptopm.Types.{JobId, Time, JobStatus, Job, Channel, ChannelMessage}
use zeptopm.Store.{get_job, get_channel, modify_channel}
use zeptopm.Store
use zeptopm.Store.Laws.{IsWellFormed}
use zeptopm.Engine.{Engine, Env, new, submit_run, next_job, mark_completed}
use zeptopm.Engine.Calls.{Call, submit, next, complete, heartbeat, run}
use zeptopm.Engine.Bounds.{run-IsBounded}
use zeptopm.Engine.Lifecycle.{IsLive, Turn, submitted, planned, here, next_turn}
use zeptopm.Engine.Lifecycle.Reachable.{Reach-IsLive}
use zeptopm.Planner.{validate_plan, materialize_plan, planned_job}
use zeptopm.Scheduler.{gen_id}
use zeptopm.Daemon.Handlers.{apply_plan}
use zeptopm.Daemon.Samples.{a_world}
use zeptopm.Engine.Incidents.{late_completion_runs_again}
use zeptopm.Engine.Channels.{
  may_speak, activate_ready_channels, route_channel_message, handle_channel_peer_failure,
  set_active, close_channel, record_message, is_waiting, next_round,
}
use zeptopm.Engine.Channels.Routing.{SameButChannels, IsOver, peer_failure_closes}
use zeptopm.Engine.Channels.Delivery.{HasFloor, Routed, route_exact}
use zeptopm.Engine.Channels.Activation.{activation_exact}
use zeptopm.Engine.Channels.Conversation.{
  ChannelCall, said, perform, perform_all, is_end, IsOpened, InTurn,
}
use zeptopm.Engine.Channels.Outcome.{
  conversation_bounded, conversation_turns, conversation_progress,
}
use zeptopm.Samples.{
  a_job, a_store, a_store-IsWellFormed, a_channel, open_channel, a_plan, an_env, an_engine,
}

abbrev calls : List (Env × Call)
calls =
    (an_env, submit "t")
    ∷ (an_env, submit "u")
    ∷ (an_env, next)
    ∷ (an_env, next)
    ∷ (an_env, heartbeat "z")
    ∷ (an_env, complete "z" [])
    ∷ []

run-IsBounded_example :
    (length (run calls (new 1, 0)).0.active_jobs ≤ 1)
    × Distinct (run calls (new 1, 0)).0.active_jobs
    × ((k : JobId)
        → contains_key k (run calls (new 1, 0)).0.last_heartbeat ≡ true
        → contains_key k (run calls (new 1, 0)).0.active_jobs ≡ true)
    × IsWellFormed (run calls (new 1, 0)).0.store
run-IsBounded_example = run-IsBounded 1 0 calls

a_plan_is_valid : validate_plan a_plan ≡ []
unfolding validate_plan is_blank contains str_eq
a_plan_is_valid = refl

-- A plan of two jobs, of which one waits for the other, and then a run.
abbrev with_plan : Engine
with_plan = (apply_plan an_env "r" "p" a_plan (a_world (new 1))).engine

plan_turn : Turn (new 1) with_plan
unfolding new Store.new get
plan_turn =
    planned an_env "r" "p" a_plan (a_world (new 1)) a_plan_is_valid (omega arith) (λ k c. refl) refl
      refl

abbrev two_started : Engine
two_started = (submit_run an_env "t" 8 with_plan).0

submit_is_new : get_job (gen_id "job" 7 (gen_id "run" 7 8).1).0 with_plan.store ≡ none
unfolding apply_plan materialize_plan gen_id get insert str_eq show_nat new Store.new planned_job
    Store.create_channel Store.create_job
submit_is_new = refl

submit_turn : Turn with_plan two_started
submit_turn = submitted an_env "t" 8 submit_is_new refl

Reach-IsLive_example : IsLive two_started
Reach-IsLive_example = Reach-IsLive 1 (next_turn (next_turn here plan_turn) submit_turn)

-- `a` is at the front of the queue and not active.
abbrev requeued : Engine
requeued = an_engine (a_store JobStatus.ready JobStatus.running a_channel) ("a" ∷ [])

late_completion_runs_again_example :
    (again : Job) × ((next_job (mark_completed an_env "a" [] requeued)).1 ≡ some again)
    × (again.status ≡ JobStatus.completed)
    × (again.instruction ≡ "work")
unfolding get str_eq
late_completion_runs_again_example =
    late_completion_runs_again an_env "a" [] [] requeued (a_job "a" JobStatus.ready []) refl refl
      refl (omega arith)

abbrev both_running : Channel → Engine
both_running ch = an_engine (a_store JobStatus.running JobStatus.running ch) []

activation_exact_example :
    get_channel "r:c" (activate_ready_channels (both_running a_channel)).0.store ≡ some open_channel
unfolding get str_eq contains set_active is_waiting
activation_exact_example =
    (activation_exact (both_running a_channel)
        (a_store-IsWellFormed JobStatus.running JobStatus.running a_channel refl)).0
      "r:c"

open_there : get_channel "r:c" (both_running open_channel).store ≡ some open_channel
unfolding get str_eq
open_there = refl

route_exact_example :
    let (e', action) = route_channel_message 9 "r:c" "a" "hi" (both_running open_channel) in
    Routed 9 "r:c" "a" "hi" open_channel (get_channel "r:c" e'.store) action
    × ((k : String)
        → str_eq "r:c" k ≡ false
        → get_channel k e'.store ≡ get_channel k (both_running open_channel).store)
    × SameButChannels (both_running open_channel) e'
route_exact_example =
    route_exact 9 "r:c" "a" "hi" (both_running open_channel) open_channel open_there

abbrev ended_channel : Channel
ended_channel = record open_channel { active = false; closed = true }

peer_failure_closes_example :
    (get_channel "r:c" (handle_channel_peer_failure "r:c" "a" (both_running open_channel)).0.store
      ≡ some ended_channel)
    × IsOver ended_channel
peer_failure_closes_example =
    let all' = peer_failure_closes "r:c" "a" (both_running open_channel) open_channel open_there in
    (all'.0, all'.1)

open_channel-IsOpened : IsOpened 2 open_channel
open_channel-IsOpened = record {
  limit = refl;
  in_range = omega arith;
  some_round = omega arith;
  has_participants = omega arith;
  is_active = refl;
  is_open = refl;
  round = refl;
  speaker = refl;
  history = refl;
}

-- `b` speaks out of turn once.
abbrev talk : List ChannelCall
talk = said 1 "a" "x" ∷ said 2 "b" "y" ∷ said 3 "b" "z" ∷ []

abbrev after_talk : Engine
after_talk = perform_all "r:c" talk (both_running open_channel)

conversation_bounded_example :
    (c : Channel) × (get_channel "r:c" after_talk.store ≡ some c)
    × (c.participants ≡ open_channel.participants)
    × (length c.history ≤ 2 * 2)
    × ((c.closed ≡ true)
        ↔ ((length c.history ≡ 2 * 2) ⊎ (any (is_end open_channel.participants) talk ≡ true)))
conversation_bounded_example =
    conversation_bounded "r:c" 2 open_channel (both_running open_channel) talk open_channel-IsOpened
      open_there

abbrev second_message : ChannelMessage
second_message = record { from_job = "b"; content = "y"; timestamp = 2; round = 0 }

abbrev talked : Channel
talked = record open_channel {
  history =
      record { from_job = "a"; content = "x"; timestamp = 1; round = 0 } ∷ second_message ∷ [];
  current_round = 1;
}

talked_there : get_channel "r:c" after_talk.store ≡ some talked
unfolding perform_all perform route_channel_message may_speak record_message next_round
    close_channel get str_eq contains modify_channel modify
talked_there = refl

conversation_turns_example : InTurn talked 1 second_message
conversation_turns_example =
    conversation_turns "r:c" 2 open_channel (both_running open_channel) talk open_channel-IsOpened
      open_there talked 1 second_message talked_there refl

conversation_progress_example :
    (p : JobId) × HasFloor talked p
    × ((now : Time) (content : String)
        → (d : Channel) × (get_channel "r:c"
              (route_channel_message now "r:c" p content after_talk).0.store
            ≡ some d)
          × (length d.history ≡ length talked.history + 1))
conversation_progress_example =
    conversation_progress "r:c" 2 open_channel (both_running open_channel) talk
      open_channel-IsOpened open_there talked talked_there refl
