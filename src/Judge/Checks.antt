-- ===== src/Judge/Checks.antt =====
-- The checks of the judge: evidence, filters, the request contract, network, quota and transport.
use fqdn_forge.Base.{
  ℕ, suc, String, Bool, true, ◌&&◌, ◌||◌, not, List, [], ◌∷◌, ◌==◌, leb, str_eq, eq_by, is_some,
  is_some_and, is_none_or, keep, any, all, filter_map, get_elem?, length, eq_ignore_ascii_case,
}
use fqdn_forge.Model.Values.{F64}
use fqdn_forge.Model.Scenario.{SourceKind-discrete, TransferMode-discrete}
use fqdn_forge.Model.Collector.{Observation, CollectorRun, FilterReason-discrete}
use fqdn_forge.Model.Truth.{
  Truth, ObservationExpectation, FilterExpectation, Assertions, RequestSequenceExpectation,
}
use fqdn_forge.Model.Audit.{AuditRecord, AuditEventType, AuditEventType-discrete}

-- The comparison `>=` of `f64`, on bit patterns.
pub record Floats : Type 0 where
  pub at_least : F64 → F64 → Bool

abbrev pub of_type : AuditEventType → AuditRecord → Bool
of_type kind record' = eq_by AuditEventType-discrete record'.event_type kind

-- Some observation passes the test.
abbrev pub seen : (Observation → Bool) → List Observation → Bool
seen = any

-- What is expected of one name, on the observations of that name.
unfoldable pub observations_match : Floats → ObservationExpectation → List Observation → Bool
unfolding SourceKind-discrete
observations_match x expected observations =
    leb expected.min_count (length observations)
    && all (λ kind. seen (λ o. eq_by SourceKind-discrete o.source_kind kind) observations)
        expected.source_kinds
    && all (λ name. seen (λ o. str_eq o.source_name name) observations) expected.source_names
    && all (λ id. seen (λ o. is_some_and o.record_id (λ actual. str_eq actual id)) observations)
        expected.record_ids
    && all (λ tag. seen (λ o. any (λ actual. str_eq actual tag) o.tags) observations) expected.tags
    && is_none_or expected.minimum_confidence (λ minimum.
      any (λ confidence. x.at_least confidence minimum)
        (filter_map (λ o. o.confidence) observations))
    && (not expected.requires_time || seen (λ o. is_some o.observed_at) observations)

unfoldable pub evidence_matches : Floats → CollectorRun → Truth → Bool
unfolding observations_match
evidence_matches x run truth =
    all (λ e. observations_match x e.1 (keep (λ o. str_eq o.fqdn e.0) run.observations))
      truth.expected_observations

unfoldable pub filters_match : CollectorRun → List FilterExpectation → Bool
unfolding FilterReason-discrete
filters_match run expected =
    all
      (λ wanted.
        any
          (λ actual.
            str_eq actual.value wanted.value
            && eq_by FilterReason-discrete actual.reason wanted.reason)
          run.filtered)
      expected

abbrev pub at_endpoint : String → AuditRecord → Bool
at_endpoint endpoint record' = is_some_and record'.endpoint_id λ e. str_eq e endpoint

-- One place of the expected request sequence.
unfoldable pub request_matches : RequestSequenceExpectation → AuditRecord → Bool
request_matches expected actual =
    at_endpoint expected.endpoint actual
    && is_none_or expected.response_index
        (λ index. is_some_and actual.response_index (λ i. i == index))

-- `iter().enumerate().all(..)` from a place on.
unfoldable pub sequence_matches : List AuditRecord → ℕ → List RequestSequenceExpectation → Bool
unfolding request_matches
sequence_matches source_audit index [] = true
sequence_matches source_audit index (expected ∷ rest) =
    is_some_and (get_elem? source_audit index) (request_matches expected)
    && sequence_matches source_audit (suc index) rest

unfoldable pub request_contract_matches : List AuditRecord → Assertions → ℕ → Bool
unfolding sequence_matches AuditEventType-discrete
request_contract_matches audit assertions virtual_waited_ms =
    let source_audit = keep (of_type AuditEventType.source_request) audit in
    length source_audit == assertions.expected_requests
    && length (keep (λ r. not r.matched) source_audit) == assertions.expected_unmatched_requests
    && all (λ e. length (keep (at_endpoint e.0) source_audit) == e.1) assertions.endpoint_requests
    && all (λ path. any (λ r. str_eq r.path path) source_audit) assertions.required_paths
    && all (λ path. all (λ r. not (str_eq r.path path)) source_audit) assertions.forbidden_paths
    && sequence_matches source_audit 0 assertions.request_sequence
    && is_none_or assertions.timing.min_virtual_wait_ms (λ minimum. leb minimum virtual_waited_ms)
    && is_none_or assertions.timing.max_virtual_wait_ms (λ maximum. leb virtual_waited_ms maximum)

-- A source request that no proxy request goes with.
abbrev pub is_direct : AuditRecord → Bool
is_direct r = of_type AuditEventType.source_request r && not (is_some r.correlation_id)

unfoldable pub network_matches : List AuditRecord → Assertions → Bool
unfolding AuditEventType-discrete
network_matches audit assertions =
    let proxy = length (keep (of_type AuditEventType.proxy_request) audit) in
    is_none_or assertions.expected_proxy_requests (λ expected. proxy == expected)
    && is_none_or assertions.require_proxy (λ required. not required || not (proxy == 0))
    && (not assertions.forbid_direct_source || not (any is_direct audit))

unfoldable pub quota_matches : List AuditRecord → Assertions → Bool
unfolding AuditEventType-discrete
quota_matches audit assertions =
    let decisions = keep (of_type AuditEventType.quota_decision) audit in
    is_none_or assertions.expected_quota_decisions (λ expected. length decisions == expected)
    && (not assertions.require_quota_rate_limited || any (λ r. r.quota_rate_limited) decisions)

unfoldable pub transport_matches : List AuditRecord → Assertions → Bool
unfolding AuditEventType-discrete TransferMode-discrete eq_ignore_ascii_case
transport_matches audit assertions =
    let source = keep (of_type AuditEventType.source_request) audit in
    is_none_or assertions.required_content_encoding (λ encoding.
      any (λ r. is_some_and r.content_encoding (λ actual. eq_ignore_ascii_case actual encoding))
        source)
    && is_none_or assertions.required_transfer_mode (λ mode.
      any (λ r. is_some_and r.transfer_mode (λ actual. eq_by TransferMode-discrete actual mode))
        source)
    && is_none_or assertions.required_transport_fault
        (λ fault. any (λ r. is_some_and r.transport_fault (λ actual. str_eq actual fault)) audit)
