-- ===== src/Lab/Submission.antt =====
-- The end of a run in `LabState`: reset, report, submission and deletion.
use fqdn_forge.Base.{
  ◌+◌, String, Bool, true, false, not, Option, none, some, [], ◌∷◌, ◌++◌, str_eq, if◌then◌else◌,
  is_some, is_some_and,
}
use fqdn_forge.BTreeMap.{BTreeMap, empty, get, insert, set, remove}
use fqdn_forge.Model.Values.{DateTime}
use fqdn_forge.Model.Collector.{CollectorSubmission}
use fqdn_forge.Model.Report.{RunReport}
use fqdn_forge.Lab.State.{RunSession, RunSessionStatus, RunStateError}
use fqdn_forge.Lab.Exec.{ok, err, Exec, OnRun, Platform, validate_run_id, with_run}

-- The session after a reset: a fresh epoch under a new capability.
unfoldable pub reset_session : String → DateTime → RunSession → RunSession
reset_session access_token now run = record run {
  audit = [];
  response_counts = empty;
  quota_counts = empty;
  latest_report = none;
  submission = none;
  fault_script_cursor = 0;
  access_token = access_token;
  last_activity_at = now;
  status = RunSessionStatus.reset;
}

-- `submission.as_ref().and_then(|s| serde_json::to_string(s).ok())`.
unfoldable pub digest_of : Platform → Option CollectorSubmission → Option String
digest_of x none = none
digest_of x (some submission) = x.to_json submission

-- `if let Some(digest) = digest { submitted_payloads.remove(&digest) }`.
unfoldable pub release_payload : Option String → BTreeMap String → BTreeMap String
release_payload none payloads = payloads
release_payload (some digest) payloads = remove digest payloads

unfoldable pub reset_found :
    Platform → String → String → DateTime → Option RunSession → Exec RunStateError RunSession
unfolding reset_session digest_of release_payload
reset_found x run_id token now none s = (err RunStateError.unknown_run, s)
reset_found x run_id token now (some run) s =
    let updated = reset_session token now run in
    (
      ok updated,
      record s {
        runs = set run_id updated s.runs;
        submitted_payloads = release_payload (digest_of x run.submission) s.submitted_payloads;
      },
    )

-- `access_token` is the one that `Uuid::new_v4` draws.
unfoldable pub reset_and_rotate :
    Platform → String → String → DateTime → Exec RunStateError RunSession
unfolding reset_found validate_run_id
reset_and_rotate x run_id access_token now s = elim (validate_run_id x run_id) [
  | ok _ ↦ reset_found x run_id access_token now (get run_id s.runs) s
  | err e ↦ (err e, s)
]

-- `set_report` after the lookup. It asks nothing of the status.
unfoldable pub complete : RunReport → DateTime → OnRun Unit
complete report now run = (
  ok tt,
  record run {
    latest_report = some report;
    last_activity_at = now;
    status = RunSessionStatus.completed;
  },
)

unfoldable pub set_report : Platform → String → RunReport → DateTime → Exec RunStateError Unit
unfolding complete with_run
set_report x run_id report now = with_run x run_id (complete report now)

-- `matches!(run.status, Active | Reset | Cancelled)`.
unfoldable pub takes_submission : RunSessionStatus → Bool
takes_submission RunSessionStatus.active = true
takes_submission RunSessionStatus.reset = true
takes_submission RunSessionStatus.cancelled = true
takes_submission _ = false

-- The inner block of `freeze_submission`, and the insert after it.
unfoldable pub freeze_in :
    String → CollectorSubmission → DateTime → String → RunSession → Exec RunStateError Unit
unfolding takes_submission
freeze_in run_id submission now digest run s =
    if is_some run.submission
    then (err RunStateError.already_submitted, s)
    else if not (takes_submission run.status)
    then (err RunStateError.run_not_accepting_submission, s)
    else (
      ok tt,
      record s {
        runs =
            set run_id
              (record run {
                submission = some submission;
                status = RunSessionStatus.submitted;
                last_activity_at = now;
              })
              s.runs;
        submitted_payloads = insert digest run_id s.submitted_payloads;
      },
    )

-- `submitted_payloads.get(&digest).is_some_and(|owner| owner != run_id)`.
unfoldable pub taken_by_other : String → String → BTreeMap String → Bool
taken_by_other run_id digest payloads =
    is_some_and (get digest payloads) λ owner. not (str_eq owner run_id)

unfoldable pub freeze_found :
    String
    → CollectorSubmission
    → DateTime
    → Option String
    → Option RunSession
    → Exec RunStateError Unit
unfolding freeze_in taken_by_other
freeze_found run_id submission now none run s = (err RunStateError.run_not_accepting_submission, s)
freeze_found run_id submission now (some digest) none s = (err RunStateError.unknown_run, s)
freeze_found run_id submission now (some digest) (some run) s =
    if taken_by_other run_id digest s.submitted_payloads
    then (err RunStateError.cross_run_submission, s)
    else freeze_in run_id submission now digest run s

unfoldable pub freeze_submission :
    Platform → String → CollectorSubmission → DateTime → Exec RunStateError Unit
unfolding freeze_found validate_run_id
freeze_submission x run_id submission now s = elim (validate_run_id x run_id) [
  | ok _ ↦ freeze_found run_id submission now (x.to_json submission) (get run_id s.runs) s
  | err e ↦ (err e, s)
]

-- The payload of a deleted run goes only if the run still owns it.
unfoldable pub release_owned : Option String → String → BTreeMap String → BTreeMap String
release_owned none run_id payloads = payloads
release_owned (some digest) run_id payloads =
    if is_some_and (get digest payloads) (λ owner. str_eq owner run_id)
    then remove digest payloads
    else payloads

unfoldable pub forget_developer : String → Option String → Option String
forget_developer run_id developer =
    if is_some_and developer (λ d. str_eq d run_id) then none else developer

unfoldable pub delete_found :
    Platform → String → DateTime → Option RunSession → Exec RunStateError Unit
unfolding digest_of release_owned forget_developer
delete_found x run_id now none s = (err RunStateError.unknown_run, s)
delete_found x run_id now (some run) s = (
  ok tt,
  record s {
    runs = remove run_id s.runs;
    control_audit = remove run_id s.control_audit;
    submitted_payloads = release_owned (digest_of x run.submission) run.run_id s.submitted_payloads;
    developer_run_id = forget_developer run_id s.developer_run_id;
    deleted_runs = s.deleted_runs + 1;
    deleted_run_history =
        s.deleted_run_history
        ++ record {
          run_id = run.run_id;
          scenario_id = run.scenario_id;
          seed = run.seed;
          created_at = run.created_at;
          deleted_at = now;
        }
          ∷ [];
  },
)

unfoldable pub delete : Platform → String → DateTime → Exec RunStateError Unit
unfolding delete_found validate_run_id
delete x run_id now s = elim (validate_run_id x run_id) [
  | ok _ ↦ delete_found x run_id now (get run_id s.runs) s
  | err e ↦ (err e, s)
]
