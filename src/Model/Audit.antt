-- ===== src/Model/Audit.antt =====
-- The audit records of a run.
use fqdn_forge.Base.{ℕ, String, Bool, Option, List}
use fqdn_forge.BTreeMap.{BTreeMap}
use fqdn_forge.Model.Values.{DateTime, JsonValue}
use fqdn_forge.Model.Scenario.{NetworkMode, QuotaScope, TransferMode}

pub data AuditEventType : Type 0 where
  source_request proxy_request quota_decision lifecycle : AuditEventType

pub data ProxyAuthenticationState : Type 0 where
  not_applicable missing wrong_scheme invalid valid : ProxyAuthenticationState

pub record AuditRecord : Type 0 where
  pub sequence : ℕ
  pub run_id : Option String
  pub scenario_id : String
  pub timestamp : DateTime
  pub method : String
  pub path : String
  pub query : BTreeMap String
  pub headers : BTreeMap String
  pub redacted_headers : BTreeMap String
  pub body : Option JsonValue
  pub body_summary : Option JsonValue
  pub endpoint_id : Option String
  pub response_index : Option ℕ
  pub script_step_id : Option String
  pub response_sequence : Option ℕ
  pub response_status : ℕ
  pub before_submission : Bool
  pub virtual_wait_ms : ℕ
  pub retry_after : Option String
  pub consumed : Bool
  pub blocked : Bool
  pub external_target_rejected : Bool
  pub matched : Bool
  pub extra : Bool
  pub mismatch_reasons : List String
  pub wire_bytes : ℕ
  pub response_digest : Option String
  pub decoded_bytes : ℕ
  pub content_encoding : Option String
  pub compression_limit_violation : Option String
  pub event_type : AuditEventType
  pub proxy_mode : Option NetworkMode
  pub proxy_target : Option String
  pub proxy_authentication : ProxyAuthenticationState
  pub proxy_reason : Option String
  pub correlation_id : Option String
  pub quota_scope : Option QuotaScope
  pub quota_remaining_before : Option ℕ
  pub quota_remaining_after : Option ℕ
  pub quota_consumed : Bool
  pub quota_rate_limited : Bool
  pub quota_recovery_virtual_wait_ms : Option ℕ
  pub transfer_mode : Option TransferMode
  pub chunk_count : ℕ
  pub transport_fault : Option String

-- The derived `Eq`.
unfoldable pub AuditEventType-discrete : Discrete AuditEventType
AuditEventType-discrete = hlevel
