-- ===== src/Tests/Shell.antt =====
-- The start of a run from a store, and the deletion of its plan.
use fqdn_forge.Base.{◌≡◌, refl, none, ok}
use fqdn_forge.BTreeMap.{get, insert, remove}
use fqdn_forge.Plan.Definition.{PlanExecutionMode}
use fqdn_forge.Plan.Run.{PlanRun}
use fqdn_forge.Plan.Report.{execute_plan_with_mode}
use fqdn_forge.Lab.Step.{initial}
use fqdn_forge.Lab.PlanRuns.{Registration}
use fqdn_forge.Lab.PlanShell.{PlanLab, run_plan_with_mode, delete_plan}
use fqdn_forge.Lab.Deleted.{Closed, delete_plan-eq-ok}
use fqdn_forge.Lab.Launched.{Launched, run_plan_with_mode-eq-ok}
use fqdn_forge.Tests.Store.{one_plan, io, stored}
use fqdn_forge.Tests.Simulation.{execution}

abbrev lab : PlanLab
lab = record { store = one_plan; inner = initial }

abbrev registration : Registration
registration = record { capability_uuid = "c"; key_uuid = "k"; saved = ok tt }

abbrev mode : PlanExecutionMode
mode = PlanExecutionMode.external_integration

abbrev started : PlanRun
started = execute_plan_with_mode execution stored none mode

abbrev running : PlanLab
running = (run_plan_with_mode "lab-1" execution registration 5 mode lab).1

run_plan_with_mode-eq-ok_example : Launched "lab-1" execution 5 mode lab started running
unfolding run_plan_with_mode get
run_plan_with_mode-eq-ok_example =
    run_plan_with_mode-eq-ok "lab-1" execution registration 5 mode lab running started refl

abbrev deleted : PlanLab
deleted = (delete_plan io (ok tt) "lab-1" running).1

delete_plan-eq-ok_example :
    (get "lab-1" deleted.store.plans ≡ none)
    × (get "lab-1" deleted.store.files ≡ none)
    × Closed "r9" deleted.inner
unfolding delete_plan run_plan_with_mode get insert remove execute_plan_with_mode
delete_plan-eq-ok_example =
    delete_plan-eq-ok io (ok tt) "lab-1" "r9" started running deleted tt refl refl refl
