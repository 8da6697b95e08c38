-- ===== src/Tests/Baseline.antt =====
-- A report and the baseline that is made of it.
use fqdn_forge.Base.{String, ◌≡◌, ◌↔◌, true, false, none, some, [], ◌∷◌, ◌++◌}
use fqdn_forge.BTreeMap.{get}
use fqdn_forge.Model.Scenario.{NetworkMode}
use fqdn_forge.Model.Truth.{RunStatus}
use fqdn_forge.Model.Report.{ReportStatus, RunReport}
use fqdn_forge.Baseline.{BaselineEntry, Baseline, baseline_from_reports, compare_baseline}
use fqdn_forge.Baseline.Matched.{Fits, compare_baseline-matched_iff, baseline_from_reports-matches}
use fqdn_forge.Tests.Judge.{truth, no_metrics}

abbrev report_on : String → RunReport
report_on scenario = record {
  schema_version = "1.4.1";
  lab_version = "1.4.1";
  version = "1.0";
  run_id = "r";
  scenario_id = scenario;
  seed = 7;
  target_domain = "acme.test";
  started_at = 0;
  finished_at = 1;
  status = ReportStatus.passed;
  result = ReportStatus.passed;
  actual_run_status = RunStatus.success;
  expected_run_status = RunStatus.success;
  source_statuses = [];
  findings = [];
  filtered = [];
  truth = truth;
  assertions = record {
    expected_fqdns = true;
    forbidden_fqdns = true;
    evidence = true;
    filter_reasons = true;
    source_status = true;
    request_contract = true;
    egress_guard = true;
    network = true;
    quota = true;
    transport = true;
    submission_consistency = true;
  };
  requests = [];
  request_summary = record { total = 0; unmatched = 0; extra = 0; rejected_egress_attempts = 0 };
  virtual_waited_ms = 250;
  metrics = record no_metrics { request_count = 3 };
  failures = [];
  violations = [];
  replay_command = "";
  reproducible = true;
  submission = record {
    received = false;
    collector_name = none;
    collector_version = none;
    finding_count = 0;
    accepted = false;
    rejected_fields = [];
  };
  semantic_fingerprint = "f";
  replay = record {
    strict = false;
    matched = none;
    comparison_report = none;
    first_difference = none;
    provenance_status = none;
    differences = [];
    difference_counts = [];
    truncated_difference_count = 0;
  };
  compression = record {
    wire_bytes = 40;
    decoded_bytes = 90;
    encoding = none;
    limit_violation = none;
  };
  network = record {
    mode = NetworkMode.direct;
    proxy_requests = 0;
    direct_source_requests = 0;
    egress_denied = false;
    reasons = [];
  };
  quota = record { decisions = 2; consumed = 2; rate_limited = 0; recovery_virtual_wait_ms = 0 };
  transport = record {
    transfer_mode = none;
    chunk_count = 0;
    malformed = false;
    limit_violation = none;
  };
  fault_script = record {
    executed_steps = [];
    missing_required_steps = [];
    unexpected_steps = [];
    order_failure_reason = none;
  };
  provenance = record {
    scenario_revision_digest = "s";
    fixture_digest = "x";
    actual_response_digest = "";
    actual_truth_digest = "";
    fault_script_digest = "";
    campaign_operators = [];
    campaign_id = none;
    campaign_seed = none;
    network_profile_summary = "";
    coverage_tags = [];
    report_schema_version = "1.4.1";
    legacy_provenance_unavailable = false;
  };
  diagnostics = record {
    verdict = "passed";
    failure_categories = [];
    event_timeline = [];
    proxy_summary = "";
    quota_summary = "";
    transport_summary = "";
    lifecycle_summary = "";
    resource_invariants = [];
    audit_reference = "";
    recommended_replay_command = "";
  };
  audit = [];
}

abbrev smoke_baseline : Baseline
smoke_baseline = baseline_from_reports "smoke" (report_on "pages" ∷ [])

compare_baseline-matched_iff_example :
    ((compare_baseline smoke_baseline (report_on "quota")).matched ≡ true) ↔ (
      (entry : BaselineEntry) × (get "quota" smoke_baseline.entries ≡ some entry)
      × Fits entry (report_on "quota"))
compare_baseline-matched_iff_example =
    compare_baseline-matched_iff smoke_baseline (report_on "quota")

baseline_from_reports-matches_example :
    (compare_baseline
      (baseline_from_reports "smoke" ((report_on "quota" ∷ []) ++ report_on "pages" ∷ []))
      (report_on "pages")).matched
    ≡ true
baseline_from_reports-matches_example =
    baseline_from_reports-matches "smoke" (report_on "quota" ∷ []) (report_on "pages")
