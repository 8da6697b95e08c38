-- ===== src/Tests/Plans.antt =====
-- A concrete plan run, and the theorems about its capability at it.
use fqdn_forge.Base.{◌<◌, ◌≡◌, refl, ◌↔◌, true, false, none, some, List, [], ◌∷◌, In, arith}
use fqdn_forge.BTreeMap.{get, insert}
use fqdn_forge.Model.Values.{JsonValue}
use fqdn_forge.Plan.Settings.{
  PlanSourceTemplate, PlanAuthentication, AuthenticationMode, AuthenticationLocation,
  RetryAfterFormat, QuotaExhaustedBehaviour, PlanPaginationMode, PlanNetworkMode,
  ProxyAuthentication, ProxySimulationFault, PlanFault, PlanFaultKind, DatasetSize,
}
use fqdn_forge.Plan.Definition.{PlanSource, PlanStatus, PlanExecutionMode, ExperimentPlan}
use fqdn_forge.Plan.Run.{PlanRun, PlanRunReport, PlanRunManifest}
use fqdn_forge.Lab.State.{PlanRunRuntime, MutableLabState}
use fqdn_forge.Lab.Exec.{ok, err}
use fqdn_forge.Lab.Step.{initial}
use fqdn_forge.Lab.Capability.{authorize_plan_source, capability_over}
use fqdn_forge.Lab.PlanRuns.{Registration, new_runtime, register_plan_run, cancel_plan_run}
use fqdn_forge.Lab.Occurrences.{consume_all, consume_all-strikes}
use fqdn_forge.Lab.Authorization.{is_ok, authorize_plan_source-is_ok_iff}
use fqdn_forge.Lab.Revoked.{PlanOperation, authorizes, accesses, cancels, after_plans}
use fqdn_forge.Lab.Cancelled.{Refuses, cancelled-Refuses}

abbrev no_authentication : PlanAuthentication
no_authentication = record {
  mode = AuthenticationMode.no_authentication;
  location = AuthenticationLocation.header;
  failure_status = 401;
}

abbrev pub ct : PlanSource
ct = record {
  id = "ct";
  template = PlanSourceTemplate.certificate;
  enabled = true;
  authentication = none;
  quota = none;
  pagination = none;
  faults = [];
}

abbrev pub plan : ExperimentPlan
plan = record {
  schema_version = "1";
  plan_id = "p";
  name = "plan";
  description = "";
  target_domain = "acme.test";
  seed = 7;
  sources = ct ∷ record ct { id = "pdns"; enabled = false } ∷ [];
  authentication = no_authentication;
  quota = record {
    request_budget = 10;
    consume_per_page = true;
    allow_burst = false;
    rate_limit_on_request = none;
    retry_after_seconds = 1;
    retry_after_format = RetryAfterFormat.seconds;
    cooldown_seconds = 0;
    exhausted_behaviour = QuotaExhaustedBehaviour.rate_limited;
  };
  pagination = record {
    mode = PlanPaginationMode.no_pagination;
    page_size = 10;
    total_pages = 1;
    next_page_exists = false;
    repeat_from_page = none;
    duplicate_ratio_percent = 0;
    cursor_loop = false;
    invalid_page = none;
    empty_final_page_with_next = false;
  };
  network_path = record {
    mode = PlanNetworkMode.direct;
    proxy_authentication = ProxyAuthentication.not_required;
    proxy_fault = ProxySimulationFault.no_fault;
    allowlisted_sources = [];
  };
  faults = [];
  dataset = record { size = DatasetSize.small };
  expected_behaviour = record {
    expected_fqdns = [];
    forbidden_fqdns = [];
    filtered_candidates = [];
    expected_requests_per_source = [];
    allow_partial_success = false;
    require_evidence = false;
  };
  status = PlanStatus.runnable;
  revision = 1;
  created_at = 0;
  updated_at = 0;
  plan_digest = "d";
}

abbrev report : PlanRunReport
report = record {
  schema_version = "1";
  run_id = "r";
  plan_id = "p";
  plan_digest = "d";
  execution_mode = PlanExecutionMode.external_integration;
  status = "ready";
  correct_findings = 0;
  missed_findings = 0;
  unexpected_findings = 0;
  filtered = 0;
  source_statuses = [];
  requests = 0;
  retries = 0;
  rate_limited_sources = 0;
  virtual_wait_ms = 0;
  fixture_digest = "";
  truth_digest = "";
  expected_behaviour_digest = "";
  manifest_digest = "";
  egress_attempted = false;
  failures = [];
  actual_requests = 0;
  source_access_status = "active";
  source_access_expires_at = none;
}

abbrev manifest : PlanRunManifest
manifest = record {
  schema_version = "1";
  run_id = "r";
  plan_id = "p";
  plan_revision = 1;
  execution_mode = PlanExecutionMode.external_integration;
  seed = 7;
  resolved_configuration = JsonValue.null;
  fixture_digest = "";
  truth_digest = "";
  expected_behaviour_digest = "";
  manifest_digest = "";
  created_at = 0;
  replayed_from = none;
  source_contract = record {
    route_template = "";
    run_header_name = "";
    source_capability_header = "";
    fake_api_key_header = "";
    proxy_capability_header = "";
    runtime_capability_ttl_seconds = 300;
    network_mode = PlanNetworkMode.direct;
  };
}

abbrev run : PlanRun
run = record { manifest = manifest; report = report; audit = []; plan_snapshot = plan }

abbrev registration : Registration
registration = record { capability_uuid = "c"; key_uuid = "k"; saved = ok tt }

abbrev runtime : PlanRunRuntime
runtime = new_runtime registration run 0

abbrev registered : MutableLabState
registered = (register_plan_run registration run 0 initial).1

runtime_found : get "r" registered.plan_runtimes ≡ some runtime
unfolding register_plan_run get insert
runtime_found = refl

run_found : get "r" registered.plan_runs ≡ some run
unfolding register_plan_run get insert
run_found = refl

-- A second before its end the capability opens the source that is enabled, and not the other.
authorize_test :
    (is_ok (authorize_plan_source "r" "ct" (some "plan-src-c") 299000000000 registered).0 ≡ true)
    × (is_ok (authorize_plan_source "r" "pdns" (some "plan-src-c") 299000000000 registered).0
        ≡ false)
    × (is_ok (authorize_plan_source "r" "ct" (some "plan-src-c") 300000000000 registered).0 ≡ false)
unfolding authorize_plan_source register_plan_run get insert
authorize_test = (refl, refl, refl)

authorize_plan_source-is_ok_iff_example :
    (is_ok (authorize_plan_source "r" "ct" (some "plan-src-c") 1 registered).0 ≡ true) ↔ (
      (1 < runtime.expires_at)
      × (runtime.active ≡ true)
      × (some "plan-src-c" ≡ some runtime.source_capability)
      × ((source : PlanSource) × In source plan.sources
          × (source.id ≡ "ct")
          × (source.enabled ≡ true)))
authorize_plan_source-is_ok_iff_example =
    authorize_plan_source-is_ok_iff "r" "ct" (some "plan-src-c") 1 registered runtime run
      runtime_found run_found

abbrev operations : List PlanOperation
operations = authorizes "r" "ct" (some "plan-src-c") 1 ∷ cancels "r" ∷ accesses "r" 0 ∷ []

cancelled-Refuses_example : Refuses "r" (after_plans operations (cancel_plan_run "r" registered).1)
cancelled-Refuses_example =
    cancelled-Refuses "r" registered runtime operations runtime_found (tt, (tt, (tt, tt)))

abbrev timeout : PlanFault
timeout = record { kind = PlanFaultKind.timeout; trigger_page = 1; occurrences = 2 }

-- Two strikes, then none; the capability ends, and an earlier reading of the clock does not help.
consume_all-strikes_example :
    consume_all "ct" timeout (1 ∷ 2 ∷ 3 ∷ 300000000000 ∷ 4 ∷ []) runtime
    ≡ ok true ∷ ok true ∷ ok false ∷ err capability_over ∷ err capability_over ∷ []
unfolding new_runtime get
consume_all-strikes_example =
    consume_all-strikes "ct" timeout (1 ∷ 2 ∷ 3 ∷ 300000000000 ∷ 4 ∷ []) runtime (omega arith) refl
