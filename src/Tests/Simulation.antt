-- ===== src/Tests/Simulation.antt =====
-- Runs of a concrete plan, and its deletion.
use fqdn_forge.Base.{
  ◌≤◌, ◌+◌, ◌≡◌, ◌↔◌, keep, refl, true, none, some, [], map, arith, saturating_add, decimal,
}
use fqdn_forge.BTreeMap.{insert}
use fqdn_forge.Model.Values.{JsonValue}
use fqdn_forge.Plan.Definition.{PlanExecutionMode}
use fqdn_forge.Plan.Checks.{validate_source_settings}
use fqdn_forge.Plan.Limits.{SourceFits, validate_source_settings_iff}
use fqdn_forge.Plan.Simulation.{SourceSettings, dataset_record_count, page_count, run_source}
use fqdn_forge.Plan.Pages.{Coherent, run_source-bounds}
use fqdn_forge.Plan.Execution.{generated_fqdn, range_from, plan_source_page_records}
use fqdn_forge.Plan.Tiles.{joined, plan_source_page_records-joined}
use fqdn_forge.Plan.Report.{Execution, execute_plan_with_mode}
use fqdn_forge.Plan.Passed.{Passes, execute_plan_with_mode-passed_iff}
use fqdn_forge.Tests.Plans.{plan, ct}

validate_source_settings_iff_example :
    (validate_source_settings (record ct { quota = some plan.quota }) "sources[0]" ≡ [])
    ↔ SourceFits (record ct { quota = some plan.quota })
validate_source_settings_iff_example =
    validate_source_settings_iff (record ct { quota = some plan.quota }) "sources[0]"

abbrev settings : SourceSettings
settings = record {
  authentication = plan.authentication;
  quota = plan.quota;
  pagination = plan.pagination;
  faults = [];
}

run_source-bounds_example :
    (1 ≤ (run_source settings 0).request_count)
    × ((run_source settings 0).request_count ≤ page_count settings)
    × ((settings.quota.consume_per_page ≡ true)
        → (run_source settings 0).request_count ≤ settings.quota.request_budget + 1)
    × Coherent (run_source settings 0)
run_source-bounds_example = run_source-bounds settings 0 (omega arith) (omega arith)

plan_source_page_records-joined_example :
    joined (map (λ page. plan_source_page_records plan ct page 10) (range_from 1 3))
    ≡ map (λ index. generated_fqdn plan ct (saturating_add index 1)) (range_from 0 24)
unfolding dataset_record_count
plan_source_page_records-joined_example = plan_source_page_records-joined plan ct 10 3 (omega arith)

abbrev pub execution : Execution
execution = record {
  run_id = "r9";
  now = 5;
  clock = λ seconds. "Mon, 17 Aug 2026 00:00:01 GMT";
  resolved = λ p mode. JsonValue.null;
  fixture_digest = λ c. c.target_domain;
  expected_behaviour_digest = λ e. "e";
  truth_digest = λ t. "t";
  manifest_digest = λ m. m.run_id;
}

execute_plan_with_mode-passed_iff_example :
    (map
        (λ e. e.source_id)
        (execute_plan_with_mode execution plan none PlanExecutionMode.local_simulation).audit
      ≡ map (λ s. s.id) (keep (λ s. s.enabled) plan.sources))
    × (((execute_plan_with_mode execution plan none
            PlanExecutionMode.local_simulation).report.status
          ≡ "passed")
        ↔ Passes plan
            (execute_plan_with_mode execution plan none PlanExecutionMode.local_simulation))
execute_plan_with_mode-passed_iff_example =
    execute_plan_with_mode-passed_iff execution plan none PlanExecutionMode.local_simulation

-- The run of the plan passes.
passes :
    (execute_plan_with_mode execution plan none PlanExecutionMode.local_simulation).report.status
    ≡ "passed"
unfolding execute_plan_with_mode decimal insert
passes = refl
