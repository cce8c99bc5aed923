-- ===== src/Store/Tests.antt =====
-- src/orchestrator/store.rs: the theorems at concrete inputs.
use zeptopm.Base.{◌≡◌, refl, none}
use zeptopm.Base.{get, str_eq}
use zeptopm.Types.{JobStatus}
use zeptopm.Store.{get_job, remove_run}
use zeptopm.Store.Removal.{remove_run_exact}
use zeptopm.Samples.{a_store, a_store-IsWellFormed, a_channel}

remove_run_exact_example :
    get_job "a" (remove_run "r" (a_store JobStatus.completed JobStatus.ready a_channel)).0 ≡ none
unfolding get str_eq
remove_run_exact_example =
    (remove_run_exact "r" (a_store JobStatus.completed JobStatus.ready a_channel)
        (a_store-IsWellFormed JobStatus.completed JobStatus.ready a_channel refl)).1
      "a"
