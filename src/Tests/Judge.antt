-- ===== src/Tests/Judge.antt =====
-- A concrete run before the judge, and the theorems of Judge at it.
use fqdn_forge.Base.{
  ℕ, List, get_elem?, String, ◌≡◌, ◌≢◌, refl, ◌↔◌, true, false, none, some, [], ◌∷◌, In, before,
  decimal,
}
use fqdn_forge.BTreeMap.{BTreeMap, get, values}
use fqdn_forge.Model.Scenario.{SourceKind}
use fqdn_forge.Model.Collector.{SourceStatus, CollectorRun, Observation, RunMetrics}
use fqdn_forge.Model.Truth.{Truth, RunStatus, Assertions, RequestSequenceExpectation}
use fqdn_forge.Model.Report.{ReportStatus}
use fqdn_forge.Judge.Input.{JudgeInput}
use fqdn_forge.Judge.Status.{derive_run_status, is_cancelled, is_success, source_statuses_match}
use fqdn_forge.Lab.Lifecycle.{new_session, cancel_record}
use fqdn_forge.Model.Audit.{AuditRecord}
use fqdn_forge.Judge.Sequence.{Meets, sequence_matches_iff}
use fqdn_forge.Judge.Checks.{Floats, sequence_matches}
use fqdn_forge.Judge.Verdict.{Build, results, verdict, failures, fqdns_pass}
use fqdn_forge.Judge.Outcome.{HasEnough, verdict-passed_iff, fqdns_pass_iff}
use fqdn_forge.Judge.Statuses.{Some, derive_run_status_iff}
use fqdn_forge.Judge.Matching.{Agree, source_statuses_match_iff}

abbrev floats : Floats
floats = record { at_least = λ a b. true }

abbrev build : Build
build = record { debug_set = λ names. "{..}"; package_version = "1.0" }

abbrev observation : String → Observation
observation name = record {
  fqdn = name;
  source_kind = SourceKind.archive;
  source_name = "ct";
  record_id = none;
  observed_at = none;
  tags = [];
  confidence = none;
  evidence = [];
}

abbrev pub no_metrics : RunMetrics
no_metrics = record {
  response_bytes = 0;
  raw_records = 0;
  parsed_candidates = 0;
  unique_fqdns = 0;
  duplicate_candidates = 0;
  filtered_candidates = 0;
  false_positives = 0;
  false_negatives = 0;
  request_count = 0;
  retry_count = 0;
  virtual_wait_ms = 0;
  elapsed_ms = 0;
  estimated_buffer_bytes = 0;
  peak_estimated_buffer_bytes = 0;
  cancelled = false;
  cancellation_reason = none;
  blocked_egress = false;
  wire_response_bytes = 0;
  decoded_response_bytes = 0;
  compression_limit_violation = none;
}

abbrev statuses : BTreeMap SourceStatus
statuses = ("ct", SourceStatus.succeeded) ∷ ("pdns", SourceStatus.timed_out) ∷ []

-- The names "b", "a", "b" are observed, in this order.
abbrev collector_run : CollectorRun
collector_run = record {
  observations = observation "b" ∷ observation "a" ∷ observation "b" ∷ [];
  filtered = [];
  source_statuses = statuses;
  virtual_waited_ms = 0;
  metrics = no_metrics;
}

abbrev wanted_statuses : BTreeMap SourceStatus
wanted_statuses = ("ct", SourceStatus.completed) ∷ ("pdns", SourceStatus.timed_out) ∷ []

abbrev pub truth : Truth
truth = record {
  expected_fqdns = "a" ∷ "b" ∷ [];
  forbidden_fqdns = "c" ∷ [];
  allow_additional_fqdns = false;
  minimum_unique_fqdns = some 2;
  expected_observations = [];
  expected_filter_reasons = [];
  expected_run_status = RunStatus.partial_success;
  expected_source_status = wanted_statuses;
}

abbrev assertions : Assertions
assertions = record {
  expected_requests = 0;
  expected_unmatched_requests = 0;
  endpoint_requests = [];
  required_paths = [];
  forbidden_paths = [];
  request_sequence = [];
  timing = record { min_virtual_wait_ms = none; max_virtual_wait_ms = none };
  expected_rejected_egress_attempts = 0;
  expected_proxy_requests = none;
  expected_quota_decisions = none;
  require_proxy = none;
  forbid_direct_source = true;
  require_quota_rate_limited = false;
  required_content_encoding = none;
  required_transfer_mode = none;
  required_transport_fault = none;
}

abbrev input : JudgeInput
input = record {
  run_id = "a";
  scenario_id = "001";
  seed = 7;
  target_domain = "acme.test";
  started_at = 0;
  finished_at = 9;
  collector_run = collector_run;
  truth = truth;
  assertions = assertions;
  audit = [];
  rejected_egress_urls = [];
}

-- The run passes.
verdict_test : verdict (results floats input) ≡ ReportStatus.passed
unfolding verdict results get
verdict_test = refl

-- With an egress attempt that the assertions do not expect it does not.
egress_test :
    failures build
      (record input { rejected_egress_urls = "http://x" ∷ [] })
      (results floats (record input { rejected_egress_urls = "http://x" ∷ [] }))
    ≡ "rejected egress count mismatch: expected 0, actual 1" ∷ []
unfolding failures results get decimal
egress_test = refl

verdict-passed_iff_example :
    (verdict (results floats input) ≡ ReportStatus.passed)
    ↔ (failures build input (results floats input) ≡ [])
verdict-passed_iff_example = verdict-passed_iff floats build input

fqdns_pass_iff_example : (fqdns_pass collector_run truth ≡ true) ↔ (
    ((a : String) → In a ("a" ∷ "b" ∷ []) → In a ("b" ∷ "a" ∷ "b" ∷ []))
    × ((false ≡ false) → (a : String) → In a ("b" ∷ "a" ∷ "b" ∷ []) → In a ("a" ∷ "b" ∷ []))
    × HasEnough collector_run truth)
fqdns_pass_iff_example = fqdns_pass_iff collector_run truth

derive_run_status_iff_example :
    ((derive_run_status statuses ≡ RunStatus.cancelled)
      ↔ ((statuses ≢ []) × ((v : SourceStatus) → In v (values statuses) → is_cancelled v ≡ true)))
    × ((derive_run_status statuses ≡ RunStatus.success)
        ↔ ((v : SourceStatus) → In v (values statuses) → is_success v ≡ true))
    × ((derive_run_status statuses ≡ RunStatus.failure) ↔ (
        ((v : SourceStatus) → In v (values statuses) → is_success v ≡ false)
        × Some (λ v. is_cancelled v ≡ false) (values statuses)))
    × ((derive_run_status statuses ≡ RunStatus.partial_success) ↔ (
        Some (λ v. is_success v ≡ true) (values statuses)
        × Some (λ v. is_success v ≡ false) (values statuses)))
derive_run_status_iff_example = derive_run_status_iff statuses

source_statuses_match_iff_example :
    (source_statuses_match statuses wanted_statuses ≡ true)
    ↔ ((k : String) → Agree (get k statuses) (get k wanted_statuses))
unfolding before
source_statuses_match_iff_example =
    source_statuses_match_iff statuses wanted_statuses ((refl, tt), (tt, tt)) ((refl, tt), (tt, tt))

abbrev reply : ℕ → AuditRecord
reply i =
    record (cancel_record (new_session "001" 7 (record { run_id = "a"; access_token = "t" }) 1) 0
      0) { endpoint_id = some "ct"; response_index = some i }

abbrev sequence : List RequestSequenceExpectation
sequence =
    record { endpoint = "ct"; response_index = some 0 }
    ∷ record { endpoint = "ct"; response_index = none }
    ∷ []

sequence_matches_iff_example : (sequence_matches (reply 0 ∷ reply 1 ∷ []) 0 sequence ≡ true) ↔ (
    (i : ℕ) (expected : RequestSequenceExpectation)
    → get_elem? sequence i ≡ some expected
    → (r : AuditRecord) × (get_elem? (reply 0 ∷ reply 1 ∷ []) i ≡ some r) × Meets expected r)
sequence_matches_iff_example = sequence_matches_iff (reply 0 ∷ reply 1 ∷ []) sequence
