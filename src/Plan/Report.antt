-- ===== src/Plan/Report.antt =====
-- `execute_plan_with_mode` (crates/lab-core/src/plan.rs): the run of a plan.
use fqdn_forge.Base.{
  ℕ, String, Bool, false, not, ◌&&◌, Option, none, some, List, [], ◌∷◌, ◌++◌, ◌==◌, if◌then◌else◌,
  any, find, keep, filter_map, length, sum_of, str_eq, concat, decimal,
}
use fqdn_forge.BTreeMap.{BTreeMap, values}
use fqdn_forge.Model.Values.{DateTime, JsonValue}
use fqdn_forge.Plan.Settings.{PlanPagination, PlanNetworkMode, PlanDataset}
use fqdn_forge.Plan.Definition.{
  PlanSource, PlanExpectedBehaviour, PlanExecutionMode, ExperimentPlan,
}
use fqdn_forge.Plan.Run.{
  PlanRun, PlanRunManifest, PlanRunReport, PlanRunAuditEntry, PlanSourceContract,
}
use fqdn_forge.Plan.Validation.{plan_schema_version}
use fqdn_forge.Plan.Execution.{
  Clock, PlanTruth, plan_truth, succeeded, SimulationResult, simulate_sources,
}

-- What goes under the digest of the fixture.
pub record FixtureContent : Type 0 where
  pub seed : ℕ
  pub target_domain : String
  pub sources : List PlanSource
  pub dataset : PlanDataset
  pub pagination : PlanPagination

-- What goes under the digest of the manifest.
pub record ManifestSeed : Type 0 where
  pub schema_version : String
  pub run_id : String
  pub plan_id : String
  pub plan_revision : ℕ
  pub execution_mode : PlanExecutionMode
  pub seed : ℕ
  pub resolved_configuration : JsonValue
  pub fixture_digest : String
  pub truth_digest : String
  pub expected_behaviour_digest : String
  pub source_contract : PlanSourceContract
  pub replayed_from : Option String

-- What an execution takes from outside: the new UUID, the time, the date printer, the JSON of the
-- configuration, and `stable_digest` of the JSON of each content.
pub record Execution : Type 0 where
  pub run_id : String
  pub now : DateTime
  pub clock : Clock
  pub resolved : ExperimentPlan → PlanExecutionMode → JsonValue
  pub fixture_digest : FixtureContent → String
  pub expected_behaviour_digest : PlanExpectedBehaviour → String
  pub truth_digest : PlanTruth → String
  pub manifest_digest : ManifestSeed → String

abbrev pub source_contract : PlanNetworkMode → PlanSourceContract
source_contract mode = record {
  route_template = "/api/plan-runs/{run_id}/sources/{source_id}";
  run_header_name = "x-lab-run-id";
  source_capability_header = "x-lab-source-capability";
  fake_api_key_header = "x-lab-plan-api-key";
  proxy_capability_header = "x-lab-proxy-capability";
  runtime_capability_ttl_seconds = 300;
  network_mode = mode;
}

unfoldable pub fixture_content : ExperimentPlan → FixtureContent
fixture_content plan = record {
  seed = plan.seed;
  target_domain = plan.target_domain;
  sources = plan.sources;
  dataset = plan.dataset;
  pagination = plan.pagination;
}

-- The line for a source whose requests are not as many as expected.
abbrev pub wrong_count : String → ℕ → Option PlanRunAuditEntry → Option String
wrong_count source expected none = none
wrong_count source expected (some entry) =
    if entry.request_count == expected
    then none
    else some (
        concat (
          source
          ∷ ": expected "
          ∷ decimal expected
          ∷ " requests, observed "
          ∷ decimal entry.request_count
          ∷ []))

unfoldable pub expected_request_failures : BTreeMap ℕ → List PlanRunAuditEntry → List String
expected_request_failures expected audit =
    filter_map (λ e. wrong_count e.0 e.1 (find (λ entry. str_eq entry.source_id e.0) audit))
      expected

-- The last line, for a plan that does not allow partial success.
unfoldable pub partial_failures : Bool → BTreeMap String → List String
partial_failures allow_partial_success statuses =
    if not allow_partial_success && any (λ status. not (succeeded status)) (values statuses)
    then "one or more sources did not succeed and partial success is disabled" ∷ []
    else []

unfoldable pub all_failures : ExperimentPlan → SimulationResult → List String
unfolding expected_request_failures partial_failures
all_failures plan s =
    (s.failures
      ++ expected_request_failures plan.expected_behaviour.expected_requests_per_source s.audit)
    ++ partial_failures plan.expected_behaviour.allow_partial_success s.statuses

abbrev pub status_of : List String → String
status_of [] = "passed"
status_of (f ∷ fs) = "failed"

unfoldable pub manifest_seed :
    Execution → ExperimentPlan → Option String → PlanExecutionMode → ManifestSeed
unfolding plan_truth fixture_content
manifest_seed x plan replayed_from execution_mode = record {
  schema_version = plan_schema_version;
  run_id = x.run_id;
  plan_id = plan.plan_id;
  plan_revision = plan.revision;
  execution_mode = execution_mode;
  seed = plan.seed;
  resolved_configuration = x.resolved plan execution_mode;
  fixture_digest = x.fixture_digest (fixture_content plan);
  truth_digest = x.truth_digest (plan_truth plan);
  expected_behaviour_digest = x.expected_behaviour_digest plan.expected_behaviour;
  source_contract = source_contract plan.network_path.mode;
  replayed_from = replayed_from;
}

unfoldable pub manifest_of : Execution → ManifestSeed → PlanRunManifest
manifest_of x m = record {
  schema_version = m.schema_version;
  run_id = m.run_id;
  plan_id = m.plan_id;
  plan_revision = m.plan_revision;
  execution_mode = m.execution_mode;
  seed = m.seed;
  resolved_configuration = m.resolved_configuration;
  fixture_digest = m.fixture_digest;
  truth_digest = m.truth_digest;
  expected_behaviour_digest = m.expected_behaviour_digest;
  manifest_digest = x.manifest_digest m;
  created_at = x.now;
  replayed_from = m.replayed_from;
  source_contract = m.source_contract;
}

unfoldable pub report_of : ExperimentPlan → PlanRunManifest → SimulationResult → PlanRunReport
unfolding all_failures
report_of plan manifest s =
    let failures = all_failures plan s in
    record {
      schema_version = plan_schema_version;
      run_id = manifest.run_id;
      plan_id = plan.plan_id;
      plan_digest = plan.plan_digest;
      execution_mode = manifest.execution_mode;
      status = status_of failures;
      correct_findings = s.correct;
      missed_findings = s.missed;
      unexpected_findings = 0;
      filtered = s.filtered;
      source_statuses = s.statuses;
      requests = sum_of (λ entry. entry.request_count) s.audit;
      retries = sum_of (λ entry. entry.retry_count) s.audit;
      rate_limited_sources = length (keep (λ entry. entry.rate_limited) s.audit);
      virtual_wait_ms = sum_of (λ entry. entry.virtual_wait_ms) s.audit;
      fixture_digest = manifest.fixture_digest;
      truth_digest = manifest.truth_digest;
      expected_behaviour_digest = manifest.expected_behaviour_digest;
      manifest_digest = manifest.manifest_digest;
      egress_attempted = false;
      failures = failures;
      actual_requests = 0;
      source_access_status = "local_contract";
      source_access_expires_at = none;
    }

unfoldable pub execute_plan_with_mode :
    Execution → ExperimentPlan → Option String → PlanExecutionMode → PlanRun
unfolding simulate_sources plan_truth manifest_seed manifest_of report_of
execute_plan_with_mode x plan replayed_from execution_mode =
    let s = simulate_sources x.clock plan (plan_truth plan) in
    let manifest = manifest_of x (manifest_seed x plan replayed_from execution_mode) in
    record {
      manifest = manifest;
      report = report_of plan manifest s;
      audit = s.audit;
      plan_snapshot = plan;
    }
