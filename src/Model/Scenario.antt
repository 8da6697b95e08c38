-- ===== src/Model/Scenario.antt =====
-- The parts of a scenario that the run state and the judge read: the fault script, the quota
-- profiles, and the kinds of sources, proxies and transfers.
use fqdn_forge.Base.{ℕ, String, Bool, Option}
use fqdn_forge.BTreeMap.{BTreeMap}

pub data FaultScriptStage : Type 0 where
  source proxy : FaultScriptStage

pub data ProxyFault : Type 0 where
  no_fault connect_timeout connection_refused reset_before_response reset_after_headers
        tunnel_close_after_bytes egress_denied :
      ProxyFault

pub record FaultScriptStep : Type 0 where
  pub id : String
  pub stage : FaultScriptStage
  pub endpoint : String
  pub query : BTreeMap String
  pub response_index : Option ℕ
  pub minimum_virtual_wait_ms : ℕ
  pub expect_quota_rate_limited : Bool
  pub proxy_fault : ProxyFault
  pub required : Bool

pub data NetworkMode : Type 0 where
  direct http_proxy connect_proxy : NetworkMode

pub data QuotaScope : Type 0 where
  per_source per_key global_run : QuotaScope

pub data RetryAfterMode : Type 0 where
  seconds http_date : RetryAfterMode

pub record QuotaProfile : Type 0 where
  pub scope : QuotaScope
  pub success_limit : ℕ
  pub exhausted_status : ℕ
  pub retry_after_mode : RetryAfterMode
  pub retry_after_ms : ℕ
  pub recover_after_virtual_ms : Option ℕ

pub data SourceKind : Type 0 where
  certificate passive_dns archive internet_search threat_intel code_search search_engine
        organization user_import key_api generic_json generic_html custom :
      SourceKind

pub data TransferMode : Type 0 where
  content_length chunked : TransferMode

-- The derived `Eq`.
unfoldable pub SourceKind-discrete : Discrete SourceKind
SourceKind-discrete = hlevel

-- The derived `Eq`.
unfoldable pub TransferMode-discrete : Discrete TransferMode
TransferMode-discrete = hlevel

-- The derived `Eq`.
unfoldable pub NetworkMode-discrete : Discrete NetworkMode
NetworkMode-discrete = hlevel
