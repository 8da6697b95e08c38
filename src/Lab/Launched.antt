-- ===== src/Lab/Launched.antt =====
-- The start of a run from a stored plan.
use fqdn_forge.Base.{
  ◌+◌, String, ◌≡◌, refl, sym, ap, ap₂, ◌∙◌, arith, true, Option, none, some, Result, ok, err,
  err-ne-ok, ok_inj, eq_iff,
}
use fqdn_forge.BTreeMap.{BTreeMap, get, insert, get-insert}
use fqdn_forge.Model.Values.{DateTime}
use fqdn_forge.Plan.Definition.{PlanStatus, PlanExecutionMode, ExperimentPlan}
use fqdn_forge.Plan.Run.{PlanRun}
use fqdn_forge.Plan.Report.{Execution, execute_plan_with_mode, manifest_of, manifest_seed}
use fqdn_forge.Lab.State.{PlanRunRuntime, MutableLabState}
use fqdn_forge.Lab.PlanRuns.{
  Registration, capability_ttl, new_runtime, register_saved, register_plan_run,
}
use fqdn_forge.Lab.PlanShell.{PlanLab, check_runnable, run_found, run_stored, run_plan_with_mode}

-- What a start leaves: the run of a runnable plan, and a fresh capability for it.
pub record Launched (plan_id : String) (x : Execution) (now : DateTime) (mode : PlanExecutionMode)
    (l : PlanLab) (run : PlanRun) (l' : PlanLab) : Type 0 where
  pub plan : ExperimentPlan
  pub stored : get plan_id l.store.plans ≡ some plan
  pub runnable : plan.status ≡ PlanStatus.runnable
  pub executed : run ≡ execute_plan_with_mode x plan none mode
  pub same_store : l'.store ≡ l.store
  pub kept : get x.run_id l'.inner.plan_runs ≡ some run
  pub runtime : PlanRunRuntime
  pub registered : get x.run_id l'.inner.plan_runtimes ≡ some runtime
  pub active : runtime.active ≡ true
  pub expires : runtime.expires_at ≡ now + capability_ttl

check_runnable-eq-ok :
    (st : PlanStatus) (u : Unit) → check_runnable st ≡ ok u → st ≡ PlanStatus.runnable
check_runnable-eq-ok PlanStatus.runnable u h = refl
check_runnable-eq-ok PlanStatus.archived u h = absurd (err-ne-ok h)
check_runnable-eq-ok PlanStatus.draft u h = absurd (err-ne-ok h)
check_runnable-eq-ok PlanStatus.invalid u h = absurd (err-ne-ok h)

executed_id :
    (x : Execution) (plan : ExperimentPlan) (mode : PlanExecutionMode)
    → (execute_plan_with_mode x plan none mode).manifest.run_id ≡ x.run_id
unfolding execute_plan_with_mode manifest_of manifest_seed
executed_id x plan mode = refl

insert_self : {V : Type 0} (k : String) (v : V) (m : BTreeMap V) → get k (insert k v m) ≡ some v
insert_self k v m = ground (arith, get-insert k k v m, eq_iff k k)

register_saved-eq-ok :
    (run run' : PlanRun) (runtime : PlanRunRuntime) (saved : Result String Unit)
    (s s' : MutableLabState)
    → register_saved run runtime saved s ≡ (ok run', s')
    → (run' ≡ run)
      × (get run.manifest.run_id s'.plan_runs ≡ some run)
      × (get run.manifest.run_id s'.plan_runtimes ≡ some runtime)
unfolding register_saved
register_saved-eq-ok run run' runtime (err e) s s' h = absurd (err-ne-ok (ap (λ r. r.0) h))
register_saved-eq-ok run run' runtime (ok _) s s' h =
    let left = ap (λ r. r.1) h in
    (
      sym (ok_inj (ap (λ r. r.0) h)),
      ap (λ t. get run.manifest.run_id t.plan_runs) (sym left)
          ∙ insert_self run.manifest.run_id run s.plan_runs,
      ap (λ t. get run.manifest.run_id t.plan_runtimes) (sym left)
          ∙ insert_self run.manifest.run_id runtime s.plan_runtimes,
    )

run_found-eq-ok :
    (plan_id : String) (x : Execution) (r : Registration) (now : DateTime)
    (mode : PlanExecutionMode) (plan : ExperimentPlan) (l l' : PlanLab) (run : PlanRun)
    (c : Result String Unit)
    → get plan_id l.store.plans ≡ some plan
    → check_runnable plan.status ≡ c
    → run_found x r now mode plan c l ≡ (ok run, l')
    → Launched plan_id x now mode l run l'
unfolding run_found register_plan_run new_runtime
run_found-eq-ok plan_id x r now mode plan l l' run (err e) there c h =
    absurd (err-ne-ok (ap (λ r. r.0) h))
run_found-eq-ok plan_id x r now mode plan l l' run (ok u) there c h =
    let made = execute_plan_with_mode x plan none mode in
    let runtime = new_runtime r made now in
    let (out, inner) = register_saved made runtime r.saved l.inner in
    let parts =
      register_saved-eq-ok made run runtime r.saved l.inner l'.inner
        (ap₂ (λ a b. (a, b)) (ap (λ t. t.0) h) (ap (λ t. t.1.inner) h)) in
    let id = executed_id x plan mode in
    record {
      plan = plan;
      stored = there;
      runnable = check_runnable-eq-ok plan.status u c;
      executed = parts.0;
      same_store = sym (ap (λ t. t.1.store) h);
      kept = ap (λ k. get k l'.inner.plan_runs) (sym id) ∙ parts.1 ∙ ap some (sym parts.0);
      runtime = runtime;
      registered = ap (λ k. get k l'.inner.plan_runtimes) (sym id) ∙ parts.2;
      active = refl;
      expires = refl;
    }

-- A plan that is started is stored and marked runnable. The run is the execution of that plan, it is
-- kept under its identifier, and the capability registered for it is active and ends one lifetime
-- after the start; the plan store is as it was.
pub run_plan_with_mode-eq-ok :
    (plan_id : String) (x : Execution) (r : Registration) (now : DateTime)
    (mode : PlanExecutionMode) (l l' : PlanLab) (run : PlanRun)
    → run_plan_with_mode plan_id x r now mode l ≡ (ok run, l')
    → Launched plan_id x now mode l run l'
unfolding run_plan_with_mode
run_plan_with_mode-eq-ok plan_id x r now mode l l' run h =
    found_one (get plan_id l.store.plans) refl h
  where
    found_one :
        (o : Option ExperimentPlan)
        → get plan_id l.store.plans ≡ o
        → run_stored plan_id x r now mode o l ≡ (ok run, l')
        → Launched plan_id x now mode l run l'
    found_one none e h = absurd (err-ne-ok (ap (λ r. r.0) h))
    found_one (some plan) e h =
        run_found-eq-ok plan_id x r now mode plan l l' run (check_runnable plan.status) e refl h
