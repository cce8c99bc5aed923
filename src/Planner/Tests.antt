-- ===== src/Planner/Tests.antt =====
-- src/orchestrator/planner.rs: the theorems at concrete inputs.
use zeptopm.Base.{
  ◌≡◌, refl, [], ◌∷◌, ◌↔◌, ◌+◌, some, length, get, insert, show_nat, arith, is_blank, contains,
  str_eq,
}
use zeptopm.Types.{JobStatus}
use zeptopm.Store.{RunStore}
use zeptopm.Scheduler.{gen_id}
use zeptopm.Planner.{Site, validate_plan, materialize_plan}
use zeptopm.Planner.Refinement.{IsMaterialized, materialize_plan-IsMaterialized}
use zeptopm.Planner.Validation.{IsValidPlan, validate_plan_iff}
use zeptopm.Samples.{a_plan, a_store, a_channel}

validate_plan_iff_example : (validate_plan a_plan ≡ []) ↔ IsValidPlan a_plan
validate_plan_iff_example = validate_plan_iff a_plan

a_plan_passes : validate_plan a_plan ≡ []
unfolding validate_plan is_blank contains str_eq
a_plan_passes = refl

-- The jobs of the plan are created under the run `r` by the job `b`.
abbrev a_site : Site
a_site = record { home = some "/root"; now = 7 }

abbrev before : RunStore
before = a_store JobStatus.completed JobStatus.running a_channel

materialize_plan-IsMaterialized_example :
    let (s', created, n') = materialize_plan a_site "r" "b" a_plan 5 before in
    IsMaterialized a_site "r" "b" a_plan 5 before s' created × (n' ≡ 5 + length a_plan.jobs)
materialize_plan-IsMaterialized_example =
    materialize_plan-IsMaterialized a_site "r" "b" a_plan 5 before a_plan_passes (omega arith)

created_in_order : (materialize_plan a_site "r" "b" a_plan 5 before).1 ≡ "job_7_5" ∷ "job_7_6" ∷ []
unfolding materialize_plan gen_id get insert str_eq show_nat
created_in_order = refl
