-- ===== src/Lab/State.antt =====
-- The state behind the lock of `LabState`, its records and its errors.
use fqdn_forge.Base.{ℕ, String, Bool, Option, List}
use fqdn_forge.BTreeMap.{BTreeMap}
use fqdn_forge.Model.Values.{DateTime}
use fqdn_forge.Model.Scenario.{FaultScriptStep, QuotaProfile, TransferMode}
use fqdn_forge.Model.Collector.{CollectorSubmission}
use fqdn_forge.Model.Audit.{AuditRecord}
use fqdn_forge.Model.Report.{RunReport}
use fqdn_forge.Plan.Definition.{ExperimentPlan, PlanSource}
use fqdn_forge.Plan.Run.{PlanRun}

pub data RunSessionStatus : Type 0 where
  active submitted completed cancelled reset expired : RunSessionStatus

pub record RunSession : Type 0 where
  pub run_id : String
  pub access_token : String
  pub scenario_id : String
  pub seed : ℕ
  pub created_at : DateTime
  pub last_activity_at : DateTime
  pub status : RunSessionStatus
  pub response_counts : BTreeMap ℕ
  pub quota_counts : BTreeMap ℕ
  pub audit : List AuditRecord
  pub latest_report : Option RunReport
  pub submission : Option CollectorSubmission
  pub fault_script_cursor : ℕ

pub record RejectedRequestAudit : Type 0 where
  pub timestamp : DateTime
  pub method : String
  pub path : String
  pub reason : String

pub record ControlAuditRecord : Type 0 where
  pub timestamp : DateTime
  pub method : String
  pub operation : String
  pub path : String
  pub outcome : String

pub record DeletedRunSummary : Type 0 where
  pub run_id : String
  pub scenario_id : String
  pub seed : ℕ
  pub created_at : DateTime
  pub deleted_at : DateTime

pub record ResponseMetrics : Type 0 where
  pub endpoint_id : String
  pub response_index : ℕ
  pub wire_bytes : ℕ
  pub decoded_bytes : ℕ
  pub response_digest : Option String
  pub content_encoding : Option String
  pub compression_limit_violation : Option String
  pub transfer_mode : Option TransferMode
  pub chunk_count : ℕ
  pub transport_fault : Option String

pub data FaultScriptClaim : Type 0 where
  unscripted : FaultScriptClaim
  matched : FaultScriptStep → FaultScriptClaim
  unexpected : String → FaultScriptClaim

pub record QuotaDecision : Type 0 where
  pub profile : QuotaProfile
  pub remaining_before : ℕ
  pub remaining_after : ℕ
  pub consumed : Bool
  pub rate_limited : Bool

pub data RunStateError : Type 0 where
  invalid_run_id unknown_run already_submitted cross_run_submission run_not_accepting_submission
        run_not_accepting_source_requests :
      RunStateError

pub record PlanRunRuntime : Type 0 where
  pub source_capability : String
  pub fake_api_key : Option String
  pub expires_at : DateTime
  pub active : Bool
  pub request_counts : BTreeMap ℕ
  pub fault_occurrences : BTreeMap ℕ

pub record PlanRunAccess : Type 0 where
  pub run_id : String
  pub source_capability : String
  pub fake_api_key : Option String
  pub expires_at : DateTime

pub record PlanSourceRequest : Type 0 where
  pub plan : ExperimentPlan
  pub source : PlanSource
  pub request_number : ℕ
  pub fake_api_key : Option String
  pub expires_at : DateTime

pub record MutableLabState : Type 0 where
  pub runs : BTreeMap RunSession
  pub control_audit : BTreeMap (List ControlAuditRecord)
  pub unscoped_audit : List RejectedRequestAudit
  pub developer_run_id : Option String
  pub base_url : Option String
  pub proxy_url : Option String
  pub submitted_payloads : BTreeMap String
  pub deleted_runs : ℕ
  pub deleted_run_history : List DeletedRunSummary
  pub plan_runs : BTreeMap PlanRun
  pub plan_runtimes : BTreeMap PlanRunRuntime
