-- ===== src/Daemon/Shutdown/Quiet.antt =====
-- src/daemon.rs, `run` after its loop: what is left in flight, written down and told to stop.
use mathlib.Core.List.{append-nil, append_assoc}
use zeptopm.Base.{
  map, filter, String, ◌≡◌, refl, sym, ap, ◌∙◌, arith, false, Option, none, some, List, [], ◌∷◌,
  ◌++◌, Map, keys, Bool-cases, inl, inr, filter_map, contains-ids_where,
}
use zeptopm.Types.{RunId}
use zeptopm.Store.{list_runs}
use zeptopm.Store.Laws.{IsWellFormed, run_key}
use zeptopm.Engine.{Engine, Env}
use zeptopm.Agent.{stop}
use zeptopm.Daemon.{can_cancel, cancel_run}
use zeptopm.Daemon.World.{World, Effect, InternalAgent, persist_run_state, send, emit}
use zeptopm.Daemon.Shutdown.{
  running_run_ids, cancel_and_persist, cancel_runs, stop_agents, shutdown, is_in_flight,
}
use zeptopm.Daemon.Shutdown.Flight.{quiet-cancel_runs, listed-cancel_runs, stop_agents-engine}

abbrev pub persisted_run : Effect → Option RunId
persisted_run (persist_run_state run_id s) = some run_id
persisted_run _ = none

abbrev pub stopped_agent : Effect → Option String
stopped_agent (send name stop) = some name
stopped_agent _ = none

filter_map-snoc :
    (f : Effect → Option String) (effect : Effect) (xs : List Effect)
    → filter_map f (xs ++ effect ∷ []) ≡ filter_map f xs ++ filter_map f (effect ∷ [])
filter_map-snoc f effect [] = refl
filter_map-snoc f effect (x ∷ xs) = ground (arith, filter_map-snoc f effect xs)

persisted-cancel_runs :
    (env : Env) (ids : List RunId) (w : World)
    → filter_map persisted_run (cancel_runs env ids w).effects
      ≡ filter_map persisted_run w.effects ++ ids
unfolding cancel_runs cancel_and_persist
persisted-cancel_runs env [] w = sym (append-nil _)
persisted-cancel_runs env (run_id ∷ ids) w =
    let s = (cancel_run env run_id (w.engine, w.managed)).0.0.store in
    persisted-cancel_runs env ids (cancel_and_persist env run_id w)
    ∙ ap (λ x. x ++ ids) (filter_map-snoc persisted_run (persist_run_state run_id s) w.effects)
    ∙ append_assoc (filter_map persisted_run w.effects) (run_id ∷ []) ids

stopped-cancel_runs :
    (env : Env) (ids : List RunId) (w : World)
    → filter_map stopped_agent (cancel_runs env ids w).effects ≡ filter_map stopped_agent w.effects
unfolding cancel_runs cancel_and_persist
stopped-cancel_runs env [] w = refl
stopped-cancel_runs env (run_id ∷ ids) w =
    let s = (cancel_run env run_id (w.engine, w.managed)).0.0.store in
    stopped-cancel_runs env ids (cancel_and_persist env run_id w)
    ∙ filter_map-snoc stopped_agent (persist_run_state run_id s) w.effects
    ∙ append-nil _

persisted-stop_agents :
    (managed : Map InternalAgent) (w : World)
    → filter_map persisted_run (stop_agents managed w).effects ≡ filter_map persisted_run w.effects
unfolding stop_agents
persisted-stop_agents [] w = refl
persisted-stop_agents ((name, internal) ∷ managed) w =
    persisted-stop_agents managed (emit (send name stop) w)
    ∙ filter_map-snoc persisted_run (send name stop) w.effects
    ∙ append-nil _

stopped-stop_agents :
    (managed : Map InternalAgent) (w : World)
    → filter_map stopped_agent (stop_agents managed w).effects
      ≡ filter_map stopped_agent w.effects ++ keys managed
unfolding stop_agents
stopped-stop_agents [] w = sym (append-nil _)
stopped-stop_agents ((name, internal) ∷ managed) w =
    stopped-stop_agents managed (emit (send name stop) w)
    ∙ ap (λ x. x ++ keys managed) (filter_map-snoc stopped_agent (send name stop) w.effects)
    ∙ append_assoc (filter_map stopped_agent w.effects) (name ∷ []) (keys managed)

cancelled_quiet :
    (env : Env) (r : RunId) (w : World)
    → IsWellFormed w.engine.store
    → is_in_flight r (cancel_runs env (running_run_ids w.engine.store) w).engine.store ≡ false
unfolding list_runs
cancelled_quiet env r w wf =
    let ids = running_run_ids w.engine.store in
    let runs = w.engine.store.runs in
    elim (Bool-cases (is_in_flight r w.engine.store)) [
      | inl open_run ↦
          listed-cancel_runs env r ids w
            (contains-ids_where run_key can_cancel r runs wf.runs.0 wf.runs.1 ∙ open_run)
      | inr quiet ↦ quiet-cancel_runs env r ids w quiet
    ]

-- A store in which each run stands under its own id, at the end of the daemon: afterwards no run is
-- pending or running, whatever run had been; of the runs exactly those that had been pending or
-- running are written down, each in turn; and each worker that was not taken away with its run is
-- told to stop.
pub shutdown_lem :
    (env : Env) (w : World)
    → IsWellFormed w.engine.store
    → let w' = shutdown env w in
      ((r : RunId) → is_in_flight r w'.engine.store ≡ false)
      × (filter_map persisted_run w'.effects
          ≡ filter_map persisted_run w.effects
            ++ map run_key (filter can_cancel (list_runs w.engine.store)))
      × (filter_map stopped_agent w'.effects
          ≡ filter_map stopped_agent w.effects
            ++ keys (cancel_runs env (running_run_ids w.engine.store) w).managed)
unfolding shutdown list_runs
shutdown_lem env w wf =
    let ids = running_run_ids w.engine.store in
    let w1 = cancel_runs env ids w in
    (
      λ r.
          ap (λ (e : Engine). is_in_flight r e.store) (stop_agents-engine env r w1.managed w1)
          ∙ cancelled_quiet env r w wf,
      persisted-stop_agents w1.managed w1 ∙ persisted-cancel_runs env ids w,
      stopped-stop_agents w1.managed w1
          ∙ ap (λ x. x ++ keys w1.managed) (stopped-cancel_runs env ids w),
    )
