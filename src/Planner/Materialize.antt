-- ===== src/Planner/Materialize.antt =====
-- src/orchestrator/planner.rs, `materialize_plan`: the store it leaves.
use zeptopm.Base.{ℕ, List, [], ◌∷◌, Map}
use zeptopm.Types.{RunId, JobId, PlannedJob, PlannedChannel, ExecutionPlan}
use zeptopm.Store.{RunStore}
use zeptopm.Store.Laws.{IsWellFormed, create_job-IsWellFormed, create_channel-IsWellFormed}
use zeptopm.Planner.{Site, create_jobs, create_channels, materialize_plan}

create_jobs-IsWellFormed :
    (site : Site) (run_id : RunId) (parent : JobId) (id_map : Map JobId) (specs : List PlannedJob)
    (s : RunStore)
    → IsWellFormed s
    → IsWellFormed (create_jobs site run_id parent id_map specs s).0
unfolding create_jobs
create_jobs-IsWellFormed site run_id parent id_map [] s h = h
create_jobs-IsWellFormed site run_id parent id_map (spec ∷ specs) s h =
    create_jobs-IsWellFormed site run_id parent id_map specs _ (create_job-IsWellFormed h _)

create_channels-IsWellFormed :
    (run_id : RunId) (id_map : Map JobId) (chs : List PlannedChannel) (s : RunStore)
    → IsWellFormed s
    → IsWellFormed (create_channels run_id id_map chs s)
unfolding create_channels
create_channels-IsWellFormed run_id id_map [] s h = h
create_channels-IsWellFormed run_id id_map (ch ∷ chs) s h =
    create_channels-IsWellFormed run_id id_map chs _ (create_channel-IsWellFormed h _)

pub materialize_plan-IsWellFormed :
    (site : Site) (run_id : RunId) (parent : JobId) (plan : ExecutionPlan) (n : ℕ) (s : RunStore)
    → IsWellFormed s
    → IsWellFormed (materialize_plan site run_id parent plan n s).0
unfolding materialize_plan
materialize_plan-IsWellFormed site run_id parent plan n s h =
    create_channels-IsWellFormed run_id _ plan.channels _
      (create_jobs-IsWellFormed site run_id parent _ plan.jobs s h)
