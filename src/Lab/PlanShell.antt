-- ===== src/Lab/PlanShell.antt =====
-- The operations of `LabState` on plans that use the plan store and the runs together:
-- run_plan_with_mode, replay_plan_run and delete_plan of crates/lab-core/src/state.rs.
use fqdn_forge.Base.{String, Option, none, some, [], ◌∷◌, Result, ok, err, concat}
use fqdn_forge.BTreeMap.{get}
use fqdn_forge.Model.Values.{DateTime}
use fqdn_forge.Plan.Definition.{PlanStatus, PlanExecutionMode, ExperimentPlan}
use fqdn_forge.Plan.Run.{PlanRun}
use fqdn_forge.Plan.Store.{PlanStore, PlanIo, not_found, delete}
use fqdn_forge.Plan.Report.{Execution, execute_plan_with_mode}
use fqdn_forge.Lab.State.{MutableLabState}
use fqdn_forge.Lab.PlanRuns.{Registration, register_plan_run}
use fqdn_forge.Lab.Invalidation.{invalidate_plan_runtimes}

-- `LabState` as far as plans go.
pub record PlanLab : Type 0 where
  pub store : PlanStore
  pub inner : MutableLabState

abbrev with_inner : {E A : Type 0} → PlanLab → Result E A × MutableLabState → Result E A × PlanLab
with_inner l (r, inner) = (r, record l { inner = inner })

-- The plan's status lets it run, or the error.
abbrev pub check_runnable : PlanStatus → Result String Unit
check_runnable PlanStatus.runnable = ok tt
check_runnable PlanStatus.archived = err "PLAN_ARCHIVED: archived plans cannot be run"
check_runnable PlanStatus.draft = err "PLAN_NOT_RUNNABLE: only plans marked runnable can be run"
check_runnable PlanStatus.invalid = err "PLAN_NOT_RUNNABLE: only plans marked runnable can be run"

unfoldable pub run_found :
    Execution
    → Registration
    → DateTime
    → PlanExecutionMode
    → ExperimentPlan
    → Result String Unit
    → PlanLab
    → Result String PlanRun × PlanLab
unfolding execute_plan_with_mode register_plan_run
run_found x r now mode plan (err e) l = (err e, l)
run_found x r now mode plan (ok _) l =
    with_inner l (register_plan_run r (execute_plan_with_mode x plan none mode) now l.inner)

abbrev pub run_stored :
    String
    → Execution
    → Registration
    → DateTime
    → PlanExecutionMode
    → Option ExperimentPlan
    → PlanLab
    → Result String PlanRun × PlanLab
run_stored plan_id x r now mode none l = (err (not_found plan_id), l)
run_stored plan_id x r now mode (some plan) l =
    run_found x r now mode plan (check_runnable plan.status) l

unfoldable pub run_plan_with_mode :
    String
    → Execution
    → Registration
    → DateTime
    → PlanExecutionMode
    → PlanLab
    → Result String PlanRun × PlanLab
unfolding run_found
run_plan_with_mode plan_id x r now mode l =
    run_stored plan_id x r now mode (get plan_id l.store.plans) l

abbrev pub or_loaded : Option PlanRun → Option PlanRun → Option PlanRun
or_loaded none loaded = loaded
or_loaded (some run) loaded = some run

abbrev replay_found :
    String
    → Execution
    → Registration
    → DateTime
    → Option PlanRun
    → PlanLab
    → Result String PlanRun × PlanLab
replay_found run_id x r now none l =
    (err (concat ("PLAN_RUN_NOT_FOUND: run " ∷ run_id ∷ " does not exist" ∷ [])), l)
replay_found run_id x r now (some prior) l = with_inner l (
    register_plan_run r
      (execute_plan_with_mode x prior.plan_snapshot (some run_id) prior.manifest.execution_mode) now
      l.inner)

-- With what `load_run(run_id).ok()` gives.
unfoldable pub replay_plan_run :
    String
    → Execution
    → Registration
    → DateTime
    → Option PlanRun
    → PlanLab
    → Result String PlanRun × PlanLab
unfolding execute_plan_with_mode register_plan_run
replay_plan_run run_id x r now loaded l =
    replay_found run_id x r now (or_loaded (get run_id l.inner.plan_runs) loaded) l

abbrev pub after_delete :
    String
    → Result String Unit
    → Result String Unit × PlanStore
    → PlanLab
    → Result String Unit × PlanLab
after_delete plan_id saved (err e, store) l = (err e, record l { store = store })
after_delete plan_id saved (ok _, store) l = (
  saved,
  record {
    store = store;
    inner = invalidate_plan_runtimes plan_id "plan definition deleted" l.inner;
  },
)

-- With what the writes of the runs that are closed give.
unfoldable pub delete_plan :
    PlanIo → Result String Unit → String → PlanLab → Result String Unit × PlanLab
unfolding delete invalidate_plan_runtimes
delete_plan io saved plan_id l = after_delete plan_id saved (delete io plan_id l.store) l
