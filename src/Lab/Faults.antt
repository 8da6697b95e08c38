-- ===== src/Lab/Faults.antt =====
-- `consume_plan_fault` of `LabState`: one occurrence of a fault of a source, spent at run time.
use fqdn_forge.Base.{
  String, Bool, true, false, not, [], ◌∷◌, leb, if◌then◌else◌, saturating_add, concat, decimal,
}
use fqdn_forge.BTreeMap.{get, insert}
use fqdn_forge.Model.Values.{DateTime}
use fqdn_forge.Plan.Settings.{PlanFault, PlanFaultKind}
use fqdn_forge.Lab.Exec.{ok, err, Exec}
use fqdn_forge.Lab.Requests.{or_default}
use fqdn_forge.Lab.Capability.{OnRuntime, in_runtime, expire, capability_over}

-- `{:?}` of the kind, as its derived `Debug` prints it.
unfoldable pub debug_kind : PlanFaultKind → String
debug_kind PlanFaultKind.slow_response = "SlowResponse"
debug_kind PlanFaultKind.timeout = "Timeout"
debug_kind PlanFaultKind.disconnect = "Disconnect"
debug_kind PlanFaultKind.status500 = "Status500"
debug_kind PlanFaultKind.status502 = "Status502"
debug_kind PlanFaultKind.status503 = "Status503"
debug_kind PlanFaultKind.status401 = "Status401"
debug_kind PlanFaultKind.status403 = "Status403"
debug_kind PlanFaultKind.status404 = "Status404"
debug_kind PlanFaultKind.status429 = "Status429"
debug_kind PlanFaultKind.empty_response = "EmptyResponse"
debug_kind PlanFaultKind.no_content = "NoContent"
debug_kind PlanFaultKind.invalid_json = "InvalidJson"
debug_kind PlanFaultKind.truncated_json = "TruncatedJson"
debug_kind PlanFaultKind.html_instead_of_json = "HtmlInsteadOfJson"
debug_kind PlanFaultKind.wrong_content_type = "WrongContentType"
debug_kind PlanFaultKind.wrong_content_length = "WrongContentLength"
debug_kind PlanFaultKind.malformed_chunked = "MalformedChunked"
debug_kind PlanFaultKind.gzip = "Gzip"
debug_kind PlanFaultKind.deflate = "Deflate"
debug_kind PlanFaultKind.brotli = "Brotli"
debug_kind PlanFaultKind.corrupt_compression = "CorruptCompression"
debug_kind PlanFaultKind.response_too_large = "ResponseTooLarge"

unfoldable pub fault_key : String → PlanFault → String
unfolding debug_kind
fault_key source_id fault =
    concat (source_id ∷ ":" ∷ decimal fault.trigger_page ∷ ":" ∷ debug_kind fault.kind ∷ [])

-- `consume_plan_fault` after the lookup. `or_default` leaves an entry behind, also where no
-- occurrence is left.
unfoldable pub consume_fault : String → PlanFault → DateTime → OnRuntime Bool
unfolding fault_key expire
consume_fault source_id fault now runtime =
    let runtime' = expire now runtime in
    let key = fault_key source_id fault in
    let consumed = or_default (get key runtime'.fault_occurrences) in
    if not runtime'.active
    then (err capability_over, runtime')
    else if leb fault.occurrences consumed
    then (
      ok false,
      record runtime' { fault_occurrences = insert key consumed runtime'.fault_occurrences },
    )
    else (
      ok true,
      record runtime' {
        fault_occurrences = insert key (saturating_add consumed 1) runtime'.fault_occurrences;
      },
    )

unfoldable pub consume_plan_fault : String → String → PlanFault → DateTime → Exec String Bool
unfolding consume_fault in_runtime
consume_plan_fault run_id source_id fault now s =
    in_runtime run_id (consume_fault source_id fault now) (get run_id s.plan_runtimes) s
