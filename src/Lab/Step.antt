-- ===== src/Lab/Step.antt =====
-- Threads share the state behind one lock. So a history is a sequence of operations, in the order in
-- which they took the lock, and each operation is one step.
use fqdn_forge.Base.{ℕ, String, ◌≡◌, Option, none, List, ◌++◌, [], ◌∷◌}
use fqdn_forge.BTreeMap.{empty, get}
use fqdn_forge.Model.Values.{DateTime}
use fqdn_forge.Model.Scenario.{FaultScriptStep, QuotaProfile}
use fqdn_forge.Model.Collector.{CollectorSubmission}
use fqdn_forge.Model.Audit.{AuditRecord}
use fqdn_forge.Model.Report.{RunReport}
use fqdn_forge.Lab.State.{
  MutableLabState, ResponseMetrics, ControlAuditRecord, RejectedRequestAudit,
}
use fqdn_forge.Lab.Exec.{Platform}
use fqdn_forge.Lab.Requests.{claim_response_index, record_request, set_response_metrics}
use fqdn_forge.Lab.Script.{ScriptRequest, claim_fault_script_step}
use fqdn_forge.Lab.Quota.{QuotaRequest, evaluate_quota}
use fqdn_forge.Lab.Lifecycle.{FreshIds, create_run_with_seed, set_developer_run, cancel}
use fqdn_forge.Lab.Submission.{reset_and_rotate, set_report, freeze_submission, delete}
use fqdn_forge.Lab.Control.{record_control_audit}

-- `MutableLabState::default()`.
abbrev pub initial : MutableLabState
initial = record {
  runs = empty;
  control_audit = empty;
  unscoped_audit = [];
  developer_run_id = none;
  base_url = none;
  proxy_url = none;
  submitted_payloads = empty;
  deleted_runs = 0;
  deleted_run_history = [];
  plan_runs = empty;
  plan_runtimes = empty;
}

-- The operations on runs that write, with their arguments and what they draw: instants and
-- identifiers.
pub data Operation : Type 0 where
  creates : Option ℕ → String → Option ℕ → FreshIds → DateTime → Operation
  develops : String → Operation
  claims_index : String → String → ℕ → DateTime → Operation
  claims_step : String → List FaultScriptStep → ScriptRequest → DateTime → Operation
  records : String → AuditRecord → DateTime → Operation
  measures : String → ResponseMetrics → Operation
  spends : String → List QuotaProfile → QuotaRequest → Operation
  controls : String → ControlAuditRecord → Operation
  rejects : RejectedRequestAudit → Operation
  cancels : String → ℕ → DateTime → DateTime → Operation
  resets : String → String → DateTime → Operation
  reports : String → RunReport → DateTime → Operation
  freezes : String → CollectorSubmission → DateTime → Operation
  deletes : String → DateTime → Operation

-- `record_unscoped_request`.
unfoldable pub record_unscoped_request : RejectedRequestAudit → MutableLabState → MutableLabState
record_unscoped_request rejected s = record s { unscoped_audit = s.unscoped_audit ++ rejected ∷ [] }

-- The state after an operation, whether it succeeds or fails.
unfoldable pub after : Platform → Operation → MutableLabState → MutableLabState
after x (creates scenario_seed scenario_id seed ids now) s =
    (create_run_with_seed scenario_seed scenario_id seed ids now s).1
after x (develops run_id) s = (set_developer_run run_id s).1
after x (claims_index run_id endpoint_id reply_count now) s =
    (claim_response_index x run_id endpoint_id reply_count now s).1
after x (claims_step run_id script r now) s = (claim_fault_script_step x run_id script r now s).1
after x (records run_id audit now) s = (record_request x run_id audit now s).1
after x (measures run_id metrics) s = (set_response_metrics x run_id metrics s).1
after x (spends run_id profiles r) s = (evaluate_quota x run_id profiles r s).1
after x (controls run_id control) s = (record_control_audit x run_id control s).1
after x (rejects rejected) s = record_unscoped_request rejected s
after x (cancels run_id virtual_wait_ms timestamp now) s =
    (cancel x run_id virtual_wait_ms timestamp now s).1
after x (resets run_id token now) s = (reset_and_rotate x run_id token now s).1
after x (reports run_id report now) s = (set_report x run_id report now s).1
after x (freezes run_id submission now) s = (freeze_submission x run_id submission now s).1
after x (deletes run_id now) s = (delete x run_id now s).1

-- `Uuid::new_v4` draws an identifier that no run has.
abbrev pub Fresh : Operation → MutableLabState → Type 0
Fresh (creates scenario_seed scenario_id seed ids now) s = get ids.run_id s.runs ≡ none
Fresh _ s = Unit

-- The states that histories reach.
pub data Reach (x : Platform) : MutableLabState → Type 0 where
  start : Reach x initial
  step : {s : MutableLabState} (o : Operation) → Fresh o s → Reach x s → Reach x (after x o s)
