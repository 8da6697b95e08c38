-- ===== src/Model/Collector.antt =====
-- What a collector reports: observations, filtered candidates, statuses, metrics, and the submission.
use fqdn_forge.Base.{ℕ, String, Bool, Option, List}
use fqdn_forge.BTreeMap.{BTreeMap}
use fqdn_forge.Model.Values.{DateTime, F64}
use fqdn_forge.Model.Scenario.{SourceKind}

pub data FilterReason : Type 0 where
  wildcard root_excluded out_of_scope invalid_domain invalid_url pagination_loop duplicate
        response_too_large malformed evidence_missing evidence_mismatch blocked_egress :
      FilterReason

pub data SourceStatus : Type 0 where
  pending running success succeeded partial failed timed_out auth_failed unauthorized rate_limited
        cancelled blocked completed :
      SourceStatus

pub record Observation : Type 0 where
  pub fqdn : String
  pub source_kind : SourceKind
  pub source_name : String
  pub record_id : Option String
  pub observed_at : Option DateTime
  pub tags : List String
  pub confidence : Option F64
  pub evidence : BTreeMap String

pub record FilteredCandidate : Type 0 where
  pub value : String
  pub reason : FilterReason
  pub source_name : String

pub record RunMetrics : Type 0 where
  pub response_bytes : ℕ
  pub raw_records : ℕ
  pub parsed_candidates : ℕ
  pub unique_fqdns : ℕ
  pub duplicate_candidates : ℕ
  pub filtered_candidates : ℕ
  pub false_positives : ℕ
  pub false_negatives : ℕ
  pub request_count : ℕ
  pub retry_count : ℕ
  pub virtual_wait_ms : ℕ
  pub elapsed_ms : ℕ
  pub estimated_buffer_bytes : ℕ
  pub peak_estimated_buffer_bytes : ℕ
  pub cancelled : Bool
  pub cancellation_reason : Option String
  pub blocked_egress : Bool
  pub wire_response_bytes : ℕ
  pub decoded_response_bytes : ℕ
  pub compression_limit_violation : Option String

pub record CollectorRun : Type 0 where
  pub observations : List Observation
  pub filtered : List FilteredCandidate
  pub source_statuses : BTreeMap SourceStatus
  pub virtual_waited_ms : ℕ
  pub metrics : RunMetrics

pub record CollectorIdentity : Type 0 where
  pub name : String
  pub version : String

pub record SubmissionEvidence : Type 0 where
  pub source_id : String
  pub source_kind : SourceKind
  pub record_id : Option String
  pub url : Option String
  pub observed_at : Option DateTime
  pub tags : List String
  pub confidence : Option F64

pub record SubmissionFinding : Type 0 where
  pub fqdn : String
  pub evidence : List SubmissionEvidence

pub record CollectorSubmission : Type 0 where
  pub schema_version : String
  pub collector : CollectorIdentity
  pub target_domain : String
  pub source_statuses : BTreeMap SourceStatus
  pub findings : List SubmissionFinding

-- The derived `Eq`.
unfoldable pub FilterReason-discrete : Discrete FilterReason
FilterReason-discrete = hlevel

-- The derived `Eq`.
unfoldable pub SourceStatus-discrete : Discrete SourceStatus
SourceStatus-discrete = hlevel
