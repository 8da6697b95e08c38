-- ===== src/Judge/Verdict.antt =====
-- `judge_run`: the assertions, the failures, and the report, up to its semantic fingerprint.
use fqdn_forge.Base.{
  ℕ, ◌+◌, String, Bool, true, false, ◌&&◌, not, List, [], ◌∷◌, ◌++◌, map, ◌==◌, leb, if◌then◌else◌,
  eq_by, is_none_or, all, keep, length, concat, decimal,
}
use fqdn_forge.BTreeSet.{collect, contains, is_subset, same_elements}
use fqdn_forge.Model.Collector.{CollectorRun}
use fqdn_forge.Model.Truth.{Truth, RunStatus-discrete}
use fqdn_forge.Model.Report.{AssertionResults, ReportStatus, RequestSummary}
use fqdn_forge.Judge.Input.{JudgeInput}
use fqdn_forge.Judge.Status.{derive_run_status, source_statuses_match}
use fqdn_forge.Judge.Checks.{
  Floats, evidence_matches, filters_match, request_contract_matches, network_matches, quota_matches,
  transport_matches,
}

abbrev pub observed : CollectorRun → List String
observed run = map (λ o. o.fqdn) run.observations

-- `expected_fqdns_pass`.
unfoldable pub fqdns_pass : CollectorRun → Truth → Bool
unfolding collect is_subset same_elements
fqdns_pass run truth =
    let actual_fqdns = collect (observed run) in
    let expected_fqdns = collect truth.expected_fqdns in
    let enough =
      is_none_or truth.minimum_unique_fqdns (λ minimum. leb minimum (length actual_fqdns)) in
    if truth.allow_additional_fqdns
    then is_subset expected_fqdns actual_fqdns && enough
    else same_elements actual_fqdns expected_fqdns && enough

-- `forbidden_pass`.
unfoldable pub forbidden_pass : CollectorRun → Truth → Bool
unfolding collect contains
forbidden_pass run truth =
    all (λ fqdn. not (contains (collect (observed run)) fqdn)) truth.forbidden_fqdns

unfoldable pub results : Floats → JudgeInput → AssertionResults
unfolding fqdns_pass forbidden_pass evidence_matches filters_match source_statuses_match
    derive_run_status RunStatus-discrete request_contract_matches network_matches quota_matches
    transport_matches
results x input = record {
  expected_fqdns = fqdns_pass input.collector_run input.truth;
  forbidden_fqdns = forbidden_pass input.collector_run input.truth;
  evidence = evidence_matches x input.collector_run input.truth;
  filter_reasons = filters_match input.collector_run input.truth.expected_filter_reasons;
  source_status =
      source_statuses_match input.collector_run.source_statuses input.truth.expected_source_status
      && eq_by RunStatus-discrete (derive_run_status input.collector_run.source_statuses)
          input.truth.expected_run_status;
  request_contract =
      request_contract_matches input.audit input.assertions input.collector_run.virtual_waited_ms;
  egress_guard =
      length input.rejected_egress_urls == input.assertions.expected_rejected_egress_attempts;
  network = network_matches input.audit input.assertions;
  quota = quota_matches input.audit input.assertions;
  transport = transport_matches input.audit input.assertions;
  submission_consistency = true;
}

-- `AssertionResults::passed`.
unfoldable pub passed : AssertionResults → Bool
passed r =
    r.expected_fqdns && r.forbidden_fqdns && r.evidence && r.filter_reasons && r.source_status
    && r.request_contract && r.egress_guard && r.network && r.quota && r.transport
    && r.submission_consistency

-- `usize::from` of a test.
abbrev pub one : Bool → ℕ
one true = 1
one false = 0

-- `AssertionResults::passed_count`.
unfoldable pub passed_count : AssertionResults → ℕ
passed_count r =
    one r.expected_fqdns
    + one r.forbidden_fqdns
    + one r.evidence
    + one r.filter_reasons
    + one r.source_status
    + one r.request_contract
    + one r.egress_guard
    + one r.network
    + one r.quota
    + one r.transport
    + one r.submission_consistency

-- What the standard library and the build give: `{:?}` of a set of texts, and the package version.
pub record Build : Type 0 where
  pub debug_set : List String → String
  pub package_version : String

-- `if !passes { failures.push(text) }`.
abbrev pub unless : Bool → String → List String
unless true text = []
unless false text = text ∷ []

unfoldable pub failures : Build → JudgeInput → AssertionResults → List String
unfolding collect
failures b input r =
    unless r.expected_fqdns (
      concat (
        "FQDN mismatch: expected "
        ∷ b.debug_set (collect input.truth.expected_fqdns)
        ∷ ", actual "
        ∷ b.debug_set (collect (observed input.collector_run))
        ∷ []))
    ++ (unless r.forbidden_fqdns "forbidden FQDN was emitted"
        ++ (unless r.evidence "evidence did not meet scenario truth"
            ++ (unless r.filter_reasons "filter reasons did not meet scenario truth"
                ++ (unless r.source_status
                      "source status or aggregate run status did not match truth"
                    ++ (unless r.request_contract "request contract did not match assertions.yaml"
                        ++ (unless r.egress_guard (
                              concat (
                                "rejected egress count mismatch: expected "
                                ∷ decimal input.assertions.expected_rejected_egress_attempts
                                ∷ ", actual "
                                ∷ decimal (length input.rejected_egress_urls)
                                ∷ []))
                            ++ (unless r.network
                                  "network proxy contract did not match assertions.yaml"
                                ++ (unless r.quota
                                      "quota decision contract did not match assertions.yaml"
                                    ++ unless r.transport
                                        "transport contract did not match assertions.yaml"))))))))

-- The status of the report.
unfoldable pub verdict : AssertionResults → ReportStatus
unfolding passed
verdict r = if passed r then ReportStatus.passed else ReportStatus.failed

unfoldable pub request_summary : JudgeInput → RequestSummary
request_summary input = record {
  total = length input.audit;
  unmatched = length (keep (λ r. not r.matched) input.audit);
  extra = length (keep (λ r. r.extra) input.audit);
  rejected_egress_attempts = length input.rejected_egress_urls;
}
