-- ===== src/Lab/Invariant/History.antt =====
-- Every state that a history of operations reaches is well-formed.
use fqdn_forge.Base.{String, refl, none, some}
use fqdn_forge.BTreeMap.{get}
use fqdn_forge.Lab.State.{MutableLabState, ControlAuditRecord}
use fqdn_forge.Lab.Exec.{Platform}
use fqdn_forge.Lab.Requests.{claim_response_index, record_request, set_response_metrics}
use fqdn_forge.Lab.Script.{claim_fault_script_step}
use fqdn_forge.Lab.Quota.{evaluate_quota}
use fqdn_forge.Lab.Lifecycle.{seed_or, create_run_with_seed, set_developer_run, cancel}
use fqdn_forge.Lab.Submission.{set_report}
use fqdn_forge.Lab.Control.{record_control_audit}
use fqdn_forge.Lab.Step.{
  Operation, creates, develops, claims_index, claims_step, records, measures, spends, controls,
  rejects, cancels, resets, reports, freezes, deletes, initial, after, record_unscoped_request,
  Fresh, Reach, start, step,
}
use fqdn_forge.Lab.Invariant.Rules.{IsWellFormed, with_run-IsWellFormed}
use fqdn_forge.Lab.Invariant.Sessions.{
  claim_index-KeepsSound, append_record-KeepsSound, update_metrics-KeepsSound,
  claim_step-KeepsSound, apply_quota-KeepsSound, cancel_run-KeepsSound, complete-KeepsSound,
}
use fqdn_forge.Lab.Invariant.Payloads.{create-IsWellFormed, reset-IsWellFormed}
use fqdn_forge.Lab.Invariant.Freezing.{freeze-IsWellFormed}
use fqdn_forge.Lab.Invariant.Deletion.{delete-IsWellFormed}
use fqdn_forge.Base.{[], ◌∷◌, arith}

initial-IsWellFormed : (x : Platform) → IsWellFormed x initial
unfolding get
initial-IsWellFormed x = record {
  sessions = λ k run h. cc;
  owned = λ d k h. cc;
  backed = λ d k h. cc;
  tombstones = refl;
}

controls-IsWellFormed :
    (x : Platform) (run_id : String) (control : ControlAuditRecord) {s : MutableLabState}
    → IsWellFormed x s
    → IsWellFormed x (record_control_audit x run_id control s).1
unfolding record_control_audit
controls-IsWellFormed x run_id control v = ground arith

-- Every operation, whether it succeeds or fails, keeps the state well-formed.
pub after-IsWellFormed :
    (x : Platform) (o : Operation) {s : MutableLabState}
    → Fresh o s
    → IsWellFormed x s
    → IsWellFormed x (after x o s)
unfolding after
after-IsWellFormed x (creates none scenario_id seed ids now) fresh v =
    unfold create_run_with_seed in v
after-IsWellFormed x (creates (some default) scenario_id seed ids now) fresh v =
    unfold create_run_with_seed in
    create-IsWellFormed v scenario_id (seed_or seed default) ids now fresh
after-IsWellFormed x (develops run_id) fresh v =
    unfold set_developer_run in
    record { sessions = v.sessions; owned = v.owned; backed = v.backed; tombstones = v.tombstones }
after-IsWellFormed x (claims_index run_id endpoint_id reply_count now) fresh v =
    unfold claim_response_index in
    with_run-IsWellFormed v run_id _ (claim_index-KeepsSound endpoint_id reply_count now)
after-IsWellFormed x (claims_step run_id [] r now) fresh v = unfold claim_fault_script_step in v
after-IsWellFormed x (claims_step run_id (first ∷ rest) r now) fresh v =
    unfold claim_fault_script_step in
    with_run-IsWellFormed v run_id _ (claim_step-KeepsSound (first ∷ rest) r now)
after-IsWellFormed x (records run_id audit now) fresh v =
    unfold record_request in with_run-IsWellFormed v run_id _ (append_record-KeepsSound audit now)
after-IsWellFormed x (measures run_id metrics) fresh v =
    unfold set_response_metrics in
    with_run-IsWellFormed v run_id _ (update_metrics-KeepsSound metrics)
after-IsWellFormed x (spends run_id profiles r) fresh v =
    unfold evaluate_quota in with_run-IsWellFormed v run_id _ (apply_quota-KeepsSound r profiles)
after-IsWellFormed x (controls run_id control) fresh v = controls-IsWellFormed x run_id control v
after-IsWellFormed x (rejects rejected) fresh v =
    unfold record_unscoped_request in
    record { sessions = v.sessions; owned = v.owned; backed = v.backed; tombstones = v.tombstones }
after-IsWellFormed x (cancels run_id virtual_wait_ms timestamp now) fresh v =
    unfold cancel in
    with_run-IsWellFormed v run_id _ (cancel_run-KeepsSound virtual_wait_ms timestamp now)
after-IsWellFormed x (resets run_id token now) fresh v = reset-IsWellFormed v run_id token now
after-IsWellFormed x (reports run_id report now) fresh v =
    unfold set_report in with_run-IsWellFormed v run_id _ (complete-KeepsSound report now)
after-IsWellFormed x (freezes run_id submission now) fresh v =
    freeze-IsWellFormed v run_id submission now
after-IsWellFormed x (deletes run_id now) fresh v = delete-IsWellFormed v run_id now

-- Whatever operations ran, in whatever order: each session has its key's name, numbers its audit from
-- 1 without a gap, is submitted or completed if it holds a submission, and is not expired; the payload
-- index names exactly the run that holds each payload; the count of deleted runs is that of the
-- tombstones.
pub Reach-IsWellFormed : {x : Platform} {s : MutableLabState} → Reach x s → IsWellFormed x s
Reach-IsWellFormed {x} start = initial-IsWellFormed x
Reach-IsWellFormed {x} (step o fresh r) = after-IsWellFormed x o fresh (Reach-IsWellFormed r)
