-- ===== src/Plan/Run.antt =====
-- A run of a plan: its manifest, its audit and its report.
use fqdn_forge.Base.{ℕ, String, Bool, Option, List}
use fqdn_forge.BTreeMap.{BTreeMap}
use fqdn_forge.Model.Values.{DateTime, JsonValue}
use fqdn_forge.Plan.Settings.{
  PlanNetworkMode, ProxyAuthentication, ProxySimulationFault, PlanFaultKind,
}
use fqdn_forge.Plan.Definition.{ExperimentPlan, PlanExecutionMode}

pub record PlanRequestAuditStep : Type 0 where
  pub request_number : ℕ
  pub page : Option ℕ
  pub pagination_token : Option String
  pub response_status : ℕ
  pub quota_consumed : Bool
  pub rate_limit_reason : Option String
  pub retry_after : Option String
  pub virtual_wait_ms : ℕ
  pub authentication : String
  pub network_mode : PlanNetworkMode
  pub proxy_authentication : ProxyAuthentication
  pub proxy_fault : ProxySimulationFault
  pub triggered_fault : Option PlanFaultKind

pub record PlanRunAuditEntry : Type 0 where
  pub source_id : String
  pub request_count : ℕ
  pub retry_count : ℕ
  pub virtual_wait_ms : ℕ
  pub quota_consumed : ℕ
  pub rate_limited : Bool
  pub status : String
  pub failure : Option String
  pub expected_requests : List PlanRequestAuditStep
  pub actual_requests : List PlanRequestAuditStep
  pub authentication : String
  pub rate_limit_reason : Option String
  pub retry_after : Option String
  pub network_mode : PlanNetworkMode
  pub proxy_authentication : ProxyAuthentication
  pub proxy_fault : ProxySimulationFault

pub record PlanSourceContract : Type 0 where
  pub route_template : String
  pub run_header_name : String
  pub source_capability_header : String
  pub fake_api_key_header : String
  pub proxy_capability_header : String
  pub runtime_capability_ttl_seconds : ℕ
  pub network_mode : PlanNetworkMode

pub record PlanRunReport : Type 0 where
  pub schema_version : String
  pub run_id : String
  pub plan_id : String
  pub plan_digest : String
  pub execution_mode : PlanExecutionMode
  pub status : String
  pub correct_findings : ℕ
  pub missed_findings : ℕ
  pub unexpected_findings : ℕ
  pub filtered : ℕ
  pub source_statuses : BTreeMap String
  pub requests : ℕ
  pub retries : ℕ
  pub rate_limited_sources : ℕ
  pub virtual_wait_ms : ℕ
  pub fixture_digest : String
  pub truth_digest : String
  pub expected_behaviour_digest : String
  pub manifest_digest : String
  pub egress_attempted : Bool
  pub failures : List String
  pub actual_requests : ℕ
  pub source_access_status : String
  pub source_access_expires_at : Option DateTime

pub record PlanRunManifest : Type 0 where
  pub schema_version : String
  pub run_id : String
  pub plan_id : String
  pub plan_revision : ℕ
  pub execution_mode : PlanExecutionMode
  pub seed : ℕ
  pub resolved_configuration : JsonValue
  pub fixture_digest : String
  pub truth_digest : String
  pub expected_behaviour_digest : String
  pub manifest_digest : String
  pub created_at : DateTime
  pub replayed_from : Option String
  pub source_contract : PlanSourceContract

pub record PlanRun : Type 0 where
  pub manifest : PlanRunManifest
  pub report : PlanRunReport
  pub audit : List PlanRunAuditEntry
  pub plan_snapshot : ExperimentPlan
