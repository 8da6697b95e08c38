-- ===== src/Lab/Lifecycle.antt =====
-- The start of a run in `LabState`, its lookup, and its cancellation.
use fqdn_forge.Base.{
  ℕ, ◌+◌, String, true, false, not, Option, none, some, [], ◌∷◌, ◌++◌, if◌then◌else◌, length,
  concat,
}
use fqdn_forge.BTreeMap.{empty, insert}
use fqdn_forge.Model.Values.{DateTime}
use fqdn_forge.Model.Audit.{AuditRecord, AuditEventType, ProxyAuthenticationState}
use fqdn_forge.Lab.State.{RunSession, RunSessionStatus, RunStateError}
use fqdn_forge.Lab.Exec.{ok, err, Exec, OnRun, Platform, with_run, takes_requests}

-- The two identifiers that `Uuid::new_v4` draws for a run, or for its next capability.
pub record FreshIds : Type 0 where
  pub run_id : String
  pub access_token : String

unfoldable pub new_session : String → ℕ → FreshIds → DateTime → RunSession
new_session scenario_id seed ids now = record {
  run_id = ids.run_id;
  access_token = ids.access_token;
  scenario_id = scenario_id;
  seed = seed;
  created_at = now;
  last_activity_at = now;
  status = RunSessionStatus.active;
  response_counts = empty;
  quota_counts = empty;
  audit = [];
  latest_report = none;
  submission = none;
  fault_script_cursor = 0;
}

-- `seed.unwrap_or(scenario.scenario.seed)`.
abbrev pub seed_or : Option ℕ → ℕ → ℕ
seed_or none default = default
seed_or (some seed) default = seed

-- `create_run_with_seed`. `scenario_seed` is the seed of the scenario in the repository, if the
-- repository has it; the error is a message.
unfoldable pub create_run_with_seed :
    Option ℕ → String → Option ℕ → FreshIds → DateTime → Exec String RunSession
unfolding new_session
create_run_with_seed none scenario_id seed ids now s =
    (err (concat ("unknown scenario " ∷ scenario_id ∷ [])), s)
create_run_with_seed (some scenario_seed) scenario_id seed ids now s =
    let run = new_session scenario_id (seed_or seed scenario_seed) ids now in
    (ok run, record s { runs = insert run.run_id run s.runs })

-- The write of `activate`, under a lock of its own after `create_run`.
unfoldable pub set_developer_run : String → Exec String Unit
set_developer_run run_id s = (ok tt, record s { developer_run_id = some run_id })

-- `session`: a clone of the run.
unfoldable pub session : Platform → String → Exec RunStateError RunSession
unfolding with_run
session x run_id = with_run x run_id λ run. (ok run, run)

-- The record that `cancel` appends.
unfoldable pub cancel_record : RunSession → ℕ → DateTime → AuditRecord
cancel_record run virtual_wait_ms timestamp = record {
  sequence = length run.audit + 1;
  run_id = some run.run_id;
  scenario_id = run.scenario_id;
  timestamp = timestamp;
  method = "CANCEL";
  path = "<lifecycle:cancel>";
  query = empty;
  headers = empty;
  redacted_headers = empty;
  body = none;
  body_summary = none;
  endpoint_id = none;
  response_index = none;
  script_step_id = none;
  response_sequence = none;
  response_status = 200;
  before_submission = true;
  virtual_wait_ms = virtual_wait_ms;
  retry_after = none;
  consumed = false;
  blocked = false;
  external_target_rejected = false;
  matched = true;
  extra = false;
  mismatch_reasons = [];
  wire_bytes = 0;
  response_digest = none;
  decoded_bytes = 0;
  content_encoding = none;
  compression_limit_violation = none;
  event_type = AuditEventType.lifecycle;
  proxy_mode = none;
  proxy_target = none;
  proxy_authentication = ProxyAuthenticationState.not_applicable;
  proxy_reason = some "cancelled";
  correlation_id = none;
  quota_scope = none;
  quota_remaining_before = none;
  quota_remaining_after = none;
  quota_consumed = false;
  quota_rate_limited = false;
  quota_recovery_virtual_wait_ms = none;
  transfer_mode = none;
  chunk_count = 0;
  transport_fault = none;
}

unfoldable pub cancel_run : ℕ → DateTime → DateTime → OnRun Unit
unfolding cancel_record takes_requests
cancel_run virtual_wait_ms timestamp now run =
    if not (takes_requests run.status)
    then (err RunStateError.run_not_accepting_source_requests, run)
    else (
      ok tt,
      record run {
        audit = run.audit ++ cancel_record run virtual_wait_ms timestamp ∷ [];
        status = RunSessionStatus.cancelled;
        last_activity_at = now;
      },
    )

unfoldable pub cancel : Platform → String → ℕ → DateTime → DateTime → Exec RunStateError Unit
unfolding cancel_run with_run
cancel x run_id virtual_wait_ms timestamp now =
    with_run x run_id (cancel_run virtual_wait_ms timestamp now)
