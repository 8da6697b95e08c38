-- ===== src/Lab/Isolation.antt =====
-- Runs are isolated: an operation writes the session that it names, and no other.
use fqdn_forge.Base.{
  String, ◌≡◌, ◌≢◌, refl, inl, inr, false, Option, none, some, [], ◌∷◌, arith, eq_iff, str_eq,
  Bool-cases, is_some,
}
use fqdn_forge.BTreeMap.{get, set, get-set, get-insert, get-remove}
use fqdn_forge.Model.Values.{DateTime}
use fqdn_forge.Model.Collector.{CollectorSubmission}
use fqdn_forge.Lab.State.{RunSession, MutableLabState, ControlAuditRecord}
use fqdn_forge.Lab.Exec.{Platform, OnRun, in_run, with_run, validate_run_id}
use fqdn_forge.Lab.Requests.{claim_response_index, record_request, set_response_metrics}
use fqdn_forge.Lab.Script.{claim_fault_script_step}
use fqdn_forge.Lab.Quota.{evaluate_quota}
use fqdn_forge.Lab.Lifecycle.{create_run_with_seed, set_developer_run, cancel}
use fqdn_forge.Lab.Submission.{
  set_report, reset_found, reset_session, reset_and_rotate, freeze_in, freeze_found,
  freeze_submission, delete_found, delete, takes_submission, taken_by_other,
}
use fqdn_forge.Lab.Control.{record_control_audit}
use fqdn_forge.Lab.Step.{
  Operation, creates, develops, claims_index, claims_step, records, measures, spends, controls,
  rejects, cancels, resets, reports, freezes, deletes, after, record_unscoped_request,
}

-- The run that an operation is about, if it writes one.
abbrev pub target : Operation → Option String
target (creates scenario_seed scenario_id seed ids now) = some ids.run_id
target (develops run_id) = none
target (claims_index run_id endpoint_id reply_count now) = some run_id
target (claims_step run_id script r now) = some run_id
target (records run_id audit now) = some run_id
target (measures run_id metrics) = some run_id
target (spends run_id profiles r) = some run_id
target (controls run_id control) = none
target (rejects rejected) = none
target (cancels run_id virtual_wait_ms timestamp now) = some run_id
target (resets run_id token now) = some run_id
target (reports run_id report now) = some run_id
target (freezes run_id submission now) = some run_id
target (deletes run_id now) = some run_id

module _ (x : Platform) (run_id k : String) (s : MutableLabState)
    (other : str_eq run_id k ≡ false) where
  get-set_other :
      (run run' : RunSession)
      → get run_id s.runs ≡ some run
      → get k (set run_id run' s.runs) ≡ get k s.runs
  get-set_other run run' found = rw (get-set run_id k run' run s.runs found, other)

  in_run_other :
      {A : Type 0} (body : OnRun A) (o : Option RunSession)
      → get run_id s.runs ≡ o
      → get k (in_run run_id body o s).1.runs ≡ get k s.runs
  unfolding in_run
  in_run_other body none e = refl
  in_run_other body (some run) e = get-set_other run (body run).1 e

  with_run_other :
      {A : Type 0} (body : OnRun A) → get k (with_run x run_id body s).1.runs ≡ get k s.runs
  unfolding with_run
  with_run_other body = elim (Bool-cases (x.is_uuid run_id)) [
    | inl e ↦ rw (e, with_run) (in_run_other body (get run_id s.runs) refl)
    | inr e ↦ rw (e, with_run)
  ]

  reset_found_other :
      (token : String) (now : DateTime) (o : Option RunSession)
      → get run_id s.runs ≡ o
      → get k (reset_found x run_id token now o s).1.runs ≡ get k s.runs
  unfolding reset_found
  reset_found_other token now none e = refl
  reset_found_other token now (some run) e = get-set_other run (reset_session token now run) e

  reset_other :
      (token : String) (now : DateTime)
      → get k (reset_and_rotate x run_id token now s).1.runs ≡ get k s.runs
  unfolding reset_and_rotate
  reset_other token now = elim (Bool-cases (x.is_uuid run_id)) [
    | inl e ↦
        rw (e, reset_and_rotate, validate_run_id)
          (reset_found_other token now (get run_id s.runs) refl)
    | inr e ↦ rw (e, reset_and_rotate, validate_run_id)
  ]

  freeze_in_other :
      (submission : CollectorSubmission) (now : DateTime) (digest : String) (run : RunSession)
      → get run_id s.runs ≡ some run
      → get k (freeze_in run_id submission now digest run s).1.runs ≡ get k s.runs
  unfolding freeze_in
  freeze_in_other submission now digest run e = elim (Bool-cases (is_some run.submission)) [
    | inl t ↦ rw (t, freeze_in)
    | inr t ↦ elim (Bool-cases (takes_submission run.status)) [
      | inl o ↦ rw (t, o, freeze_in) (get-set_other run _ e)
      | inr o ↦ rw (t, o, freeze_in)
    ]
  ]

  freeze_found_other :
      (submission : CollectorSubmission) (now : DateTime) (digest : Option String)
      (o : Option RunSession)
      → get run_id s.runs ≡ o
      → get k (freeze_found run_id submission now digest o s).1.runs ≡ get k s.runs
  unfolding freeze_found
  freeze_found_other submission now none o e = refl
  freeze_found_other submission now (some digest) none e = refl
  freeze_found_other submission now (some digest) (some run) e =
      elim (Bool-cases (taken_by_other run_id digest s.submitted_payloads)) [
        | inl t ↦ rw (t, freeze_found)
        | inr t ↦ rw (t, freeze_found) (freeze_in_other submission now digest run e)
      ]

  freeze_other :
      (submission : CollectorSubmission) (now : DateTime)
      → get k (freeze_submission x run_id submission now s).1.runs ≡ get k s.runs
  unfolding freeze_submission
  freeze_other submission now = elim (Bool-cases (x.is_uuid run_id)) [
    | inl e ↦
        rw (e, freeze_submission, validate_run_id)
          (freeze_found_other submission now (x.to_json submission) (get run_id s.runs) refl)
    | inr e ↦ rw (e, freeze_submission, validate_run_id)
  ]

  delete_found_other :
      (now : DateTime) (o : Option RunSession)
      → get k (delete_found x run_id now o s).1.runs ≡ get k s.runs
  unfolding delete_found
  delete_found_other now none = refl
  delete_found_other now (some run) = rw (get-remove run_id k s.runs, other)

  delete_other : (now : DateTime) → get k (delete x run_id now s).1.runs ≡ get k s.runs
  unfolding delete
  delete_other now = elim (Bool-cases (x.is_uuid run_id)) [
    | inl e ↦ rw (e, delete, validate_run_id) (delete_found_other now (get run_id s.runs))
    | inr e ↦ rw (e, delete, validate_run_id)
  ]

not_target : (run_id k : String) → some run_id ≢ some k → str_eq run_id k ≡ false
not_target run_id k h = ground (arith, eq_iff run_id k, h)

controls_other :
    (x : Platform) (run_id : String) (control : ControlAuditRecord) (s : MutableLabState)
    → (record_control_audit x run_id control s).1.runs ≡ s.runs
unfolding record_control_audit
controls_other x run_id control s = ground arith

-- No operation, failing or not, changes the session of a run that is not its target.
pub after_other :
    (x : Platform) (o : Operation) (s : MutableLabState) (k : String)
    → target o ≢ some k
    → get k (after x o s).runs ≡ get k s.runs
unfolding after
after_other x (creates none scenario_id seed ids now) s k h = unfold create_run_with_seed in refl
after_other x (creates (some default) scenario_id seed ids now) s k h =
    unfold create_run_with_seed in rw (get-insert ids.run_id k _ s.runs, not_target ids.run_id k h)
after_other x (develops run_id) s k h = unfold set_developer_run in refl
after_other x (claims_index run_id endpoint_id reply_count now) s k h =
    unfold claim_response_index in with_run_other x run_id k s (not_target run_id k h) _
after_other x (claims_step run_id [] r now) s k h = unfold claim_fault_script_step in refl
after_other x (claims_step run_id (first ∷ rest) r now) s k h =
    unfold claim_fault_script_step in with_run_other x run_id k s (not_target run_id k h) _
after_other x (records run_id audit now) s k h =
    unfold record_request in with_run_other x run_id k s (not_target run_id k h) _
after_other x (measures run_id metrics) s k h =
    unfold set_response_metrics in with_run_other x run_id k s (not_target run_id k h) _
after_other x (spends run_id profiles r) s k h =
    unfold evaluate_quota in with_run_other x run_id k s (not_target run_id k h) _
after_other x (controls run_id control) s k h = rw (controls_other x run_id control s)
after_other x (rejects rejected) s k h = unfold record_unscoped_request in refl
after_other x (cancels run_id virtual_wait_ms timestamp now) s k h =
    unfold cancel in with_run_other x run_id k s (not_target run_id k h) _
after_other x (resets run_id token now) s k h =
    reset_other x run_id k s (not_target run_id k h) token now
after_other x (reports run_id report now) s k h =
    unfold set_report in with_run_other x run_id k s (not_target run_id k h) _
after_other x (freezes run_id submission now) s k h =
    freeze_other x run_id k s (not_target run_id k h) submission now
after_other x (deletes run_id now) s k h = delete_other x run_id k s (not_target run_id k h) now
