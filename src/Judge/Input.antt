-- ===== src/Judge/Input.antt =====
-- What the judge is given.
use fqdn_forge.Base.{ℕ, String, List}
use fqdn_forge.Model.Values.{DateTime}
use fqdn_forge.Model.Collector.{CollectorRun}
use fqdn_forge.Model.Truth.{Truth, Assertions}
use fqdn_forge.Model.Audit.{AuditRecord}

pub record JudgeInput : Type 0 where
  pub run_id : String
  pub scenario_id : String
  pub seed : ℕ
  pub target_domain : String
  pub started_at : DateTime
  pub finished_at : DateTime
  pub collector_run : CollectorRun
  pub truth : Truth
  pub assertions : Assertions
  pub audit : List AuditRecord
  pub rejected_egress_urls : List String
