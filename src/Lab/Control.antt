-- ===== src/Lab/Control.antt =====
-- The control plane of `LabState`: the control audit, rejected requests, listings, the summary.
use fqdn_forge.Base.{
  String, Bool, true, false, not, Option, none, some, List, [], ◌∷◌, ◌++◌, is_some, keep, length,
  sum_of,
}
use fqdn_forge.BTreeMap.{BTreeMap, get, insert, values}
use fqdn_forge.Model.Report.{ResourceSummary}
use fqdn_forge.Lab.State.{
  RunSession, RunSessionStatus, RunStateError, ControlAuditRecord, MutableLabState,
}
use fqdn_forge.Lab.Exec.{ok, err, Exec, Platform, validate_run_id}

-- `unwrap_or_default()` and `entry(..).or_default()` of the lists of control records.
abbrev pub records_of : Option (List ControlAuditRecord) → List ControlAuditRecord
records_of none = []
records_of (some records) = records

unfoldable pub append_control : String → ControlAuditRecord → Bool → Exec RunStateError Unit
append_control run_id control false s = (err RunStateError.unknown_run, s)
append_control run_id control true s = (
  ok tt,
  record s {
    control_audit =
        insert run_id (records_of (get run_id s.control_audit) ++ control ∷ []) s.control_audit;
  },
)

unfoldable pub record_control_audit :
    Platform → String → ControlAuditRecord → Exec RunStateError Unit
unfolding append_control validate_run_id
record_control_audit x run_id control s = elim (validate_run_id x run_id) [
  | ok _ ↦ append_control run_id control (is_some (get run_id s.runs)) s
  | err e ↦ (err e, s)
]

unfoldable pub read_control : String → Bool → Exec RunStateError (List ControlAuditRecord)
read_control run_id false s = (err RunStateError.unknown_run, s)
read_control run_id true s = (ok (records_of (get run_id s.control_audit)), s)

unfoldable pub control_audit : Platform → String → Exec RunStateError (List ControlAuditRecord)
unfolding read_control validate_run_id
control_audit x run_id s = elim (validate_run_id x run_id) [
  | ok _ ↦ read_control run_id (is_some (get run_id s.runs)) s
  | err e ↦ (err e, s)
]

abbrev pub is_expired : RunSessionStatus → Bool
is_expired RunSessionStatus.expired = true
is_expired _ = false

unfoldable pub list_runs : MutableLabState → List RunSession
list_runs s = keep (λ run. not (is_expired run.status)) (values s.runs)

unfoldable pub session_of : BTreeMap RunSession → Option String → Option RunSession
session_of runs none = none
session_of runs (some run_id) = get run_id runs

unfoldable pub developer_run : MutableLabState → Option RunSession
unfolding session_of
developer_run s = session_of s.runs s.developer_run_id

-- `matches!(run.status, Active | Submitted | Completed)`.
abbrev pub counts_as_active : RunSessionStatus → Bool
counts_as_active RunSessionStatus.active = true
counts_as_active RunSessionStatus.submitted = true
counts_as_active RunSessionStatus.completed = true
counts_as_active _ = false

abbrev pub is_reset : RunSessionStatus → Bool
is_reset RunSessionStatus.reset = true
is_reset _ = false

unfoldable pub resource_summary : MutableLabState → ResourceSummary
resource_summary s = record {
  active_runs = length (keep (λ run. counts_as_active run.status) (values s.runs));
  reset_runs = length (keep (λ run. is_reset run.status) (values s.runs));
  deleted_runs = s.deleted_runs;
  active_proxy_connections = 0;
  audit_records = sum_of (λ run. length run.audit) (values s.runs);
  quota_state_entries = sum_of (λ run. length run.quota_counts) (values s.runs);
  report_count = length (keep (λ run. is_some run.latest_report) (values s.runs));
  fixture_bytes = 0;
  rejection_count = length s.unscoped_audit;
}
