-- ===== src/Lab/Invalidation.antt =====
-- `invalidate_plan_runtimes` of `LabState`: the deletion of a plan ends the capabilities of its runs.
use fqdn_forge.Base.{
  String, Bool, false, ◌&&◌, Option, none, some, List, [], ◌∷◌, ◌++◌, str_eq, is_some_and, keep,
}
use fqdn_forge.BTreeMap.{get, set, keys}
use fqdn_forge.Plan.Run.{PlanRun}
use fqdn_forge.Lab.State.{PlanRunRuntime, MutableLabState}
use fqdn_forge.Lab.Capability.{write_runtime}
use fqdn_forge.Lab.PlanRuns.{end_access}

abbrev pub close_runtime : String → Option PlanRunRuntime → MutableLabState → MutableLabState
close_runtime run_id none s = s
close_runtime run_id (some runtime) s = write_runtime run_id (record runtime { active = false }) s

unfoldable pub close_run : String → String → Option PlanRun → MutableLabState → MutableLabState
unfolding end_access
close_run reason run_id none s = s
close_run reason run_id (some run) s = record s {
  plan_runs =
      set run_id (end_access "invalidated" (run.report.failures ++ reason ∷ []) run) s.plan_runs;
}

-- One round of the loop over the identifiers.
unfoldable pub invalidate_one : String → String → MutableLabState → MutableLabState
unfolding close_run
invalidate_one reason run_id s =
    close_run reason run_id (get run_id s.plan_runs)
      (close_runtime run_id (get run_id s.plan_runtimes) s)

unfoldable pub invalidate_each : String → List String → MutableLabState → MutableLabState
unfolding invalidate_one
invalidate_each reason [] s = s
invalidate_each reason (run_id ∷ rest) s =
    invalidate_each reason rest (invalidate_one reason run_id s)

-- The run belongs to the plan and its capability is active.
unfoldable pub is_affected : String → MutableLabState → String × PlanRun → Bool
is_affected plan_id s (run_id, run) =
    str_eq run.manifest.plan_id plan_id
    && is_some_and (get run_id s.plan_runtimes) (λ runtime. runtime.active)

unfoldable pub invalidate_plan_runtimes : String → String → MutableLabState → MutableLabState
unfolding invalidate_each is_affected
invalidate_plan_runtimes plan_id reason s =
    invalidate_each reason (keys (keep (is_affected plan_id s) s.plan_runs)) s
