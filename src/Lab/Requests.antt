-- ===== src/Lab/Requests.antt =====
-- The operations of `LabState` behind a source request: reply indices and the request audit.
use fqdn_forge.Base.{
  ℕ, ◌+◌, String, Bool, true, false, ◌&&◌, not, Option, none, some, List, [], ◌∷◌, ◌++◌, ◌==◌, leb,
  str_eq, if◌then◌else◌, is_some, is_some_and, keep, length, reverse,
}
use fqdn_forge.BTreeMap.{get, insert}
use fqdn_forge.Model.Values.{DateTime}
use fqdn_forge.Model.Audit.{AuditRecord, AuditEventType}
use fqdn_forge.Lab.State.{RunSessionStatus, RunStateError, ResponseMetrics}
use fqdn_forge.Lab.Exec.{ok, err, Exec, OnRun, Platform, with_run, takes_requests}

-- `entry(key).or_default()` of a map of counters, as the value that it yields.
abbrev pub or_default : Option ℕ → ℕ
or_default none = 0
or_default (some n) = n

-- `claim_response_index` after the lookup. `or_default` leaves an entry behind, also where no reply
-- is left. The count stays below `reply_count`, so it does not overflow.
unfoldable pub claim_index : String → ℕ → DateTime → OnRun (Option ℕ)
unfolding takes_requests
claim_index endpoint_id reply_count now run =
    let count = or_default (get endpoint_id run.response_counts) in
    if not (takes_requests run.status)
    then (err RunStateError.run_not_accepting_source_requests, run)
    else if leb reply_count count
    then (ok none, record run { response_counts = insert endpoint_id count run.response_counts })
    else (
      ok (some count),
      record run {
        response_counts = insert endpoint_id (count + 1) run.response_counts;
        last_activity_at = now;
        status = RunSessionStatus.active;
      },
    )

unfoldable pub claim_response_index :
    Platform → String → String → ℕ → DateTime → Exec RunStateError (Option ℕ)
unfolding claim_index with_run
claim_response_index x run_id endpoint_id reply_count now =
    with_run x run_id (claim_index endpoint_id reply_count now)

abbrev pub is_source_request : AuditEventType → Bool
is_source_request AuditEventType.source_request = true
is_source_request _ = false

-- `record.endpoint_id.as_deref() == Some(endpoint_id)`.
abbrev pub at_endpoint : String → AuditRecord → Bool
at_endpoint endpoint_id record' = is_some_and record'.endpoint_id (λ e. str_eq e endpoint_id)

unfoldable pub matched_request_count : Platform → String → String → Exec RunStateError ℕ
unfolding with_run
matched_request_count x run_id endpoint_id = with_run x run_id λ run. (
  ok (
      length (
        keep
          (λ r.
            at_endpoint endpoint_id r
            && r.matched
            && is_source_request r.event_type
            && is_some r.response_index)
          run.audit)),
  run,
)

-- `record_request` after the lookup. A `Vec` holds fewer than `usize::MAX` records.
unfoldable pub append_record : AuditRecord → DateTime → OnRun Unit
unfolding takes_requests
append_record audit now run =
    if is_some run.submission
    then (err RunStateError.run_not_accepting_source_requests, run)
    else if not (takes_requests run.status)
    then (err RunStateError.run_not_accepting_source_requests, run)
    else (
      ok tt,
      record run {
        audit =
            run.audit
            ++ record audit { sequence = length run.audit + 1; before_submission = true } ∷ [];
        last_activity_at = now;
      },
    )

unfoldable pub record_request : Platform → String → AuditRecord → DateTime → Exec RunStateError Unit
unfolding append_record with_run
record_request x run_id audit now = with_run x run_id (append_record audit now)

-- The record that `set_response_metrics` looks for.
unfoldable pub answers : ResponseMetrics → AuditRecord → Bool
answers metrics r =
    at_endpoint metrics.endpoint_id r
    && is_some_and r.response_index (λ i. i == metrics.response_index)

unfoldable pub with_metrics : ResponseMetrics → AuditRecord → AuditRecord
with_metrics metrics r = record r {
  wire_bytes = metrics.wire_bytes;
  decoded_bytes = metrics.decoded_bytes;
  response_digest = metrics.response_digest;
  content_encoding = metrics.content_encoding;
  compression_limit_violation = metrics.compression_limit_violation;
  transfer_mode = metrics.transfer_mode;
  chunk_count = metrics.chunk_count;
  transport_fault = metrics.transport_fault;
}

-- A write to the first record that is found.
unfoldable pub update_first :
    (AuditRecord → Bool) → (AuditRecord → AuditRecord) → List AuditRecord → List AuditRecord
update_first found change [] = []
update_first found change (r ∷ rest) =
    if found r then change r ∷ rest else r ∷ update_first found change rest

-- `iter_mut().rev().find(..)`: the last record that answers takes the metrics; without one nothing
-- happens.
unfoldable pub update_metrics : ResponseMetrics → OnRun Unit
unfolding answers with_metrics update_first
update_metrics metrics run = (
  ok tt,
  record run {
    audit = reverse (update_first (answers metrics) (with_metrics metrics) (reverse run.audit));
  },
)

unfoldable pub set_response_metrics : Platform → String → ResponseMetrics → Exec RunStateError Unit
unfolding update_metrics with_run
set_response_metrics x run_id metrics = with_run x run_id (update_metrics metrics)
