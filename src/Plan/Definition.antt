-- ===== src/Plan/Definition.antt =====
-- The plan itself: its sources, what it expects, and its status.
use fqdn_forge.Base.{ℕ, String, Bool, Option, List}
use fqdn_forge.BTreeMap.{BTreeMap}
use fqdn_forge.Model.Values.{DateTime}
use fqdn_forge.Plan.Settings.{
  PlanSourceTemplate, PlanAuthentication, PlanQuota, PlanPagination, PlanNetworkPath, PlanFault,
  PlanDataset,
}

pub record PlanSource : Type 0 where
  pub id : String
  pub template : PlanSourceTemplate
  pub enabled : Bool
  pub authentication : Option PlanAuthentication
  pub quota : Option PlanQuota
  pub pagination : Option PlanPagination
  pub faults : List PlanFault

pub record PlanExpectedBehaviour : Type 0 where
  pub expected_fqdns : List String
  pub forbidden_fqdns : List String
  pub filtered_candidates : List String
  pub expected_requests_per_source : BTreeMap ℕ
  pub allow_partial_success : Bool
  pub require_evidence : Bool

pub data PlanStatus : Type 0 where
  draft runnable invalid archived : PlanStatus

pub data PlanExecutionMode : Type 0 where
  local_simulation external_integration : PlanExecutionMode

pub record ExperimentPlan : Type 0 where
  pub schema_version : String
  pub plan_id : String
  pub name : String
  pub description : String
  pub target_domain : String
  pub seed : ℕ
  pub sources : List PlanSource
  pub authentication : PlanAuthentication
  pub quota : PlanQuota
  pub pagination : PlanPagination
  pub network_path : PlanNetworkPath
  pub faults : List PlanFault
  pub dataset : PlanDataset
  pub expected_behaviour : PlanExpectedBehaviour
  pub status : PlanStatus
  pub revision : ℕ
  pub created_at : DateTime
  pub updated_at : DateTime
  pub plan_digest : String
