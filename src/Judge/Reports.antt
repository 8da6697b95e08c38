-- ===== src/Judge/Reports.antt =====
-- What the report says of the audit: the network, quota, transport and compression summaries, and
-- the findings.
use fqdn_forge.Base.{
  ℕ, not, Option, none, some, List, [], ◌∷◌, max, map, is_some, keep, any, find, filter_map, first,
  sum_of, length, eq_ignore_ascii_case,
}
use fqdn_forge.BTreeMap.{get}
use fqdn_forge.Model.Scenario.{NetworkMode}
use fqdn_forge.Model.Collector.{CollectorRun, SubmissionFinding}
use fqdn_forge.Model.Audit.{AuditRecord, AuditEventType, AuditEventType-discrete}
use fqdn_forge.Model.Report.{NetworkReport, QuotaReport, TransportReport, CompressionReport}
use fqdn_forge.Judge.Checks.{of_type, is_direct}

-- `unwrap_or_default()` of a network mode.
abbrev pub mode_or_default : Option NetworkMode → NetworkMode
mode_or_default none = NetworkMode.direct
mode_or_default (some mode) = mode

unfoldable pub network_from_audit : List AuditRecord → NetworkReport
unfolding AuditEventType-discrete
network_from_audit audit =
    let proxy = keep (of_type AuditEventType.proxy_request) audit in
    record {
      mode = mode_or_default (first (filter_map (λ (r : AuditRecord). r.proxy_mode) proxy));
      proxy_requests = length proxy;
      direct_source_requests = length (keep is_direct audit);
      egress_denied = any (λ r. r.external_target_rejected) proxy;
      reasons = filter_map (λ (r : AuditRecord). r.proxy_reason) proxy;
    }

-- `iter().max().unwrap_or(0)`.
abbrev pub greatest : List ℕ → ℕ
greatest [] = 0
greatest (n ∷ ns) = max n (greatest ns)

unfoldable pub quota_from_audit : List AuditRecord → QuotaReport
unfolding AuditEventType-discrete
quota_from_audit audit =
    let decisions = keep (of_type AuditEventType.quota_decision) audit in
    record {
      decisions = length decisions;
      consumed = length (keep (λ r. r.quota_consumed) decisions);
      rate_limited = length (keep (λ r. r.quota_rate_limited) decisions);
      recovery_virtual_wait_ms =
          greatest (filter_map (λ (r : AuditRecord). r.quota_recovery_virtual_wait_ms) decisions);
    }

unfoldable pub transport_from_audit : List AuditRecord → TransportReport
unfolding AuditEventType-discrete
transport_from_audit audit =
    let records = keep (of_type AuditEventType.source_request) audit in
    record {
      transfer_mode = first (filter_map (λ (r : AuditRecord). r.transfer_mode) records);
      chunk_count = sum_of (λ r. r.chunk_count) records;
      malformed = any (λ r. is_some r.transport_fault) records;
      limit_violation =
          first (filter_map (λ (r : AuditRecord). r.compression_limit_violation) records);
    }

unfoldable pub compression_from_audit : List AuditRecord → CompressionReport
unfolding eq_ignore_ascii_case
compression_from_audit audit = record {
  wire_bytes = sum_of (λ r. r.wire_bytes) audit;
  decoded_bytes = sum_of (λ r. r.decoded_bytes) audit;
  encoding =
      find (λ encoding. not (eq_ignore_ascii_case encoding "identity"))
        (filter_map (λ (r : AuditRecord). r.content_encoding) audit);
  limit_violation = first (filter_map (λ (r : AuditRecord). r.compression_limit_violation) audit);
}

-- One finding for each observation, with one piece of evidence.
unfoldable pub findings_from_collector : CollectorRun → List SubmissionFinding
findings_from_collector run =
    map
      (λ o. record {
        fqdn = o.fqdn;
        evidence =
            record {
              source_id = o.source_name;
              source_kind = o.source_kind;
              record_id = o.record_id;
              url = get "url" o.evidence;
              observed_at = o.observed_at;
              tags = o.tags;
              confidence = o.confidence;
            }
            ∷ [];
      })
      run.observations
