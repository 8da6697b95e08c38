-- ===== src/Model/Truth.antt =====
-- The truth of a scenario and its assertions, which a run is judged against.
use fqdn_forge.Base.{ℕ, String, Bool, Option, List}
use fqdn_forge.BTreeMap.{BTreeMap}
use fqdn_forge.Model.Values.{F64}
use fqdn_forge.Model.Scenario.{SourceKind, TransferMode}
use fqdn_forge.Model.Collector.{FilterReason, SourceStatus}

pub data RunStatus : Type 0 where
  success partial_success failure cancelled : RunStatus

pub record ObservationExpectation : Type 0 where
  pub min_count : ℕ
  pub source_kinds : List SourceKind
  pub source_names : List String
  pub record_ids : List String
  pub requires_time : Bool
  pub tags : List String
  pub minimum_confidence : Option F64

pub record FilterExpectation : Type 0 where
  pub value : String
  pub reason : FilterReason

pub record Truth : Type 0 where
  pub expected_fqdns : List String
  pub forbidden_fqdns : List String
  pub allow_additional_fqdns : Bool
  pub minimum_unique_fqdns : Option ℕ
  pub expected_observations : BTreeMap ObservationExpectation
  pub expected_filter_reasons : List FilterExpectation
  pub expected_run_status : RunStatus
  pub expected_source_status : BTreeMap SourceStatus

pub record RequestSequenceExpectation : Type 0 where
  pub endpoint : String
  pub response_index : Option ℕ

pub record TimingExpectation : Type 0 where
  pub min_virtual_wait_ms : Option ℕ
  pub max_virtual_wait_ms : Option ℕ

pub record Assertions : Type 0 where
  pub expected_requests : ℕ
  pub expected_unmatched_requests : ℕ
  pub endpoint_requests : BTreeMap ℕ
  pub required_paths : List String
  pub forbidden_paths : List String
  pub request_sequence : List RequestSequenceExpectation
  pub timing : TimingExpectation
  pub expected_rejected_egress_attempts : ℕ
  pub expected_proxy_requests : Option ℕ
  pub expected_quota_decisions : Option ℕ
  pub require_proxy : Option Bool
  pub forbid_direct_source : Bool
  pub require_quota_rate_limited : Bool
  pub required_content_encoding : Option String
  pub required_transfer_mode : Option TransferMode
  pub required_transport_fault : Option String

-- The derived `Eq`.
unfoldable pub RunStatus-discrete : Discrete RunStatus
RunStatus-discrete = hlevel
