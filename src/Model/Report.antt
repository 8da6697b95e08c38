-- ===== src/Model/Report.antt =====
-- The report of a run and its parts.
use fqdn_forge.Base.{ℕ, String, Bool, Option, List}
use fqdn_forge.BTreeMap.{BTreeMap}
use fqdn_forge.Model.Values.{DateTime}
use fqdn_forge.Model.Scenario.{NetworkMode, TransferMode}
use fqdn_forge.Model.Truth.{RunStatus, Truth}
use fqdn_forge.Model.Collector.{SourceStatus, FilteredCandidate, RunMetrics, SubmissionFinding}
use fqdn_forge.Model.Audit.{AuditRecord}

pub record SubmissionReport : Type 0 where
  pub received : Bool
  pub collector_name : Option String
  pub collector_version : Option String
  pub finding_count : ℕ
  pub accepted : Bool
  pub rejected_fields : List String

pub data DifferenceCategory : Type 0 where
  configuration fixture truth request response timing verdict provenance finding evidence
        source_status filter audit proxy quota transport lifecycle resource :
      DifferenceCategory

pub record ReplayDifference : Type 0 where
  pub category : DifferenceCategory
  pub path : String
  pub previous : String
  pub current : String

pub record ReplayReport : Type 0 where
  pub strict : Bool
  pub matched : Option Bool
  pub comparison_report : Option String
  pub first_difference : Option String
  pub provenance_status : Option String
  pub differences : List ReplayDifference
  pub difference_counts : BTreeMap ℕ
  pub truncated_difference_count : ℕ

pub record RunProvenance : Type 0 where
  pub scenario_revision_digest : String
  pub fixture_digest : String
  pub actual_response_digest : String
  pub actual_truth_digest : String
  pub fault_script_digest : String
  pub campaign_operators : List String
  pub campaign_id : Option String
  pub campaign_seed : Option ℕ
  pub network_profile_summary : String
  pub coverage_tags : BTreeMap (List String)
  pub report_schema_version : String
  pub legacy_provenance_unavailable : Bool

pub record EventTimelineEntry : Type 0 where
  pub sequence : ℕ
  pub category : String
  pub status : ℕ
  pub detail : String

pub record DiagnosticSummary : Type 0 where
  pub verdict : String
  pub failure_categories : BTreeMap ℕ
  pub event_timeline : List EventTimelineEntry
  pub proxy_summary : String
  pub quota_summary : String
  pub transport_summary : String
  pub lifecycle_summary : String
  pub resource_invariants : BTreeMap Bool
  pub audit_reference : String
  pub recommended_replay_command : String

pub record ResourceSummary : Type 0 where
  pub active_runs : ℕ
  pub reset_runs : ℕ
  pub deleted_runs : ℕ
  pub active_proxy_connections : ℕ
  pub audit_records : ℕ
  pub quota_state_entries : ℕ
  pub report_count : ℕ
  pub fixture_bytes : ℕ
  pub rejection_count : ℕ

pub record CompressionReport : Type 0 where
  pub wire_bytes : ℕ
  pub decoded_bytes : ℕ
  pub encoding : Option String
  pub limit_violation : Option String

pub record NetworkReport : Type 0 where
  pub mode : NetworkMode
  pub proxy_requests : ℕ
  pub direct_source_requests : ℕ
  pub egress_denied : Bool
  pub reasons : List String

pub record QuotaReport : Type 0 where
  pub decisions : ℕ
  pub consumed : ℕ
  pub rate_limited : ℕ
  pub recovery_virtual_wait_ms : ℕ

pub record TransportReport : Type 0 where
  pub transfer_mode : Option TransferMode
  pub chunk_count : ℕ
  pub malformed : Bool
  pub limit_violation : Option String

pub record FaultScriptReport : Type 0 where
  pub executed_steps : List String
  pub missing_required_steps : List String
  pub unexpected_steps : List String
  pub order_failure_reason : Option String

pub data ReportStatus : Type 0 where
  passed failed : ReportStatus

pub record AssertionResults : Type 0 where
  pub expected_fqdns : Bool
  pub forbidden_fqdns : Bool
  pub evidence : Bool
  pub filter_reasons : Bool
  pub source_status : Bool
  pub request_contract : Bool
  pub egress_guard : Bool
  pub network : Bool
  pub quota : Bool
  pub transport : Bool
  pub submission_consistency : Bool

pub record RequestSummary : Type 0 where
  pub total : ℕ
  pub unmatched : ℕ
  pub extra : ℕ
  pub rejected_egress_attempts : ℕ

pub record RunReport : Type 0 where
  pub schema_version : String
  pub lab_version : String
  pub version : String
  pub run_id : String
  pub scenario_id : String
  pub seed : ℕ
  pub target_domain : String
  pub started_at : DateTime
  pub finished_at : DateTime
  pub status : ReportStatus
  pub result : ReportStatus
  pub actual_run_status : RunStatus
  pub expected_run_status : RunStatus
  pub source_statuses : BTreeMap SourceStatus
  pub findings : List SubmissionFinding
  pub filtered : List FilteredCandidate
  pub truth : Truth
  pub assertions : AssertionResults
  pub requests : List AuditRecord
  pub request_summary : RequestSummary
  pub virtual_waited_ms : ℕ
  pub metrics : RunMetrics
  pub failures : List String
  pub violations : List String
  pub replay_command : String
  pub reproducible : Bool
  pub submission : SubmissionReport
  pub semantic_fingerprint : String
  pub replay : ReplayReport
  pub compression : CompressionReport
  pub network : NetworkReport
  pub quota : QuotaReport
  pub transport : TransportReport
  pub fault_script : FaultScriptReport
  pub provenance : RunProvenance
  pub diagnostics : DiagnosticSummary
  pub audit : List AuditRecord
