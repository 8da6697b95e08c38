-- ===== src/Lab/Frozen.antt =====
-- What a submission freezes. The comments of state.rs promise an immutable audit and payload from the
-- submission on; the transport metrics of its records are the exception, since
-- `set_response_metrics` asks nothing of the session.
use fqdn_forge.Base.{
  ℕ, String, ◌≡◌, ◌≢◌, ◌⊎◌, refl, sym, ap, ◌∙◌, subst, inl, inr, Bool, true, false, Option, none,
  some, [], ◌∷◌, arith, eq_iff, str_eq, is_some, Bool-cases, false≢true, of_some, eq_refl,
}
use fqdn_forge.BTreeMap.{get, get-set}
use fqdn_forge.Model.Collector.{CollectorSubmission}
use fqdn_forge.Lab.State.{RunSession, MutableLabState}
use fqdn_forge.Lab.Exec.{Platform, OnRun, in_run, with_run, validate_run_id, takes_requests}
use fqdn_forge.Lab.Requests.{claim_response_index, record_request, set_response_metrics}
use fqdn_forge.Lab.Script.{claim_fault_script_step}
use fqdn_forge.Lab.Quota.{evaluate_quota}
use fqdn_forge.Lab.Lifecycle.{cancel}
use fqdn_forge.Lab.Submission.{
  set_report, freeze_in, freeze_found, freeze_submission, taken_by_other,
}
use fqdn_forge.Lab.Step.{
  Operation, creates, develops, claims_index, claims_step, records, measures, spends, controls,
  rejects, cancels, resets, reports, freezes, deletes, after, Fresh, Reach,
}
use fqdn_forge.Lab.Isolation.{target, after_other}
use fqdn_forge.Lab.Invariant.Rules.{is_closed}
use fqdn_forge.Lab.Invariant.History.{Reach-IsWellFormed}
use fqdn_forge.Lab.Kept.{
  Kept, Kept-refl, Survives, KeepsRun, update_metrics-Kept, claim_index-Kept, append_record-Kept,
  claim_step-Kept, apply_quota-Kept, cancel_run-Kept, complete-Kept,
}

module _ (x : Platform) (k : String) (run : RunSession) (s : MutableLabState)
    (found : get k s.runs ≡ some run) where
  stays : Survives k run s
  stays = record { run' = run; found = found; kept = Kept-refl run }

  in_run-Survives :
      {A : Type 0} (body : OnRun A) (o : Option RunSession)
      → get k s.runs ≡ o
      → KeepsRun body run
      → Survives k run (in_run k body o s).1
  unfolding in_run
  in_run-Survives body none e keeps = stays
  in_run-Survives body (some r) e keeps = record {
    run' = (body r).1;
    found = rw (get-set k k (body r).1 r s.runs e, eq_refl k);
    kept = subst (λ q. Kept run (body q).1) (of_some (sym found ∙ e)) keeps;
  }

  with_run-Survives :
      {A : Type 0} (body : OnRun A) → KeepsRun body run → Survives k run (with_run x k body s).1
  unfolding with_run
  with_run-Survives body keeps = elim (Bool-cases (x.is_uuid k)) [
    | inl e ↦ rw (e, with_run) (in_run-Survives body (get k s.runs) refl keeps)
    | inr e ↦ rw (e, with_run) stays
  ]

  pub with_run-own :
      {A : Type 0} (run_id : String) (body : OnRun A)
      → run_id ≡ k
      → KeepsRun body run
      → Survives k run (with_run x run_id body s).1
  with_run-own run_id body p keeps =
      subst (λ j. Survives k run (with_run x j body s).1) (sym p) (with_run-Survives body keeps)

  module _ (holds : is_some run.submission ≡ true) (submission : CollectorSubmission)
      (now : ℕ) where
    freeze_found-same :
        (digest : Option String) (o : Option RunSession)
        → get k s.runs ≡ o
        → (freeze_found k submission now digest o s).1 ≡ s
    unfolding freeze_found
    freeze_found-same none o e = refl
    freeze_found-same (some digest) none e = refl
    freeze_found-same (some digest) (some r) e =
        elim (Bool-cases (taken_by_other k digest s.submitted_payloads)) [
          | inl t ↦ rw (t, freeze_found)
          | inr t ↦
              let again : is_some r.submission ≡ true =
                subst (λ q. is_some q.submission ≡ true) (of_some (sym found ∙ e)) holds in
              rw (t, freeze_found) (unfold freeze_in in rw (again, freeze_in))
        ]

    freeze-same : (freeze_submission x k submission now s).1 ≡ s
    unfolding freeze_submission
    freeze-same = elim (Bool-cases (x.is_uuid k)) [
      | inl e ↦
          rw (e, freeze_submission, validate_run_id)
            (freeze_found-same (x.to_json submission) (get k s.runs) refl)
      | inr e ↦ rw (e, freeze_submission, validate_run_id)
    ]

-- The operations that end the submission of a run.
abbrev pub ends : String → Operation → Bool
ends k (resets run_id token now) = str_eq run_id k
ends k (deletes run_id now) = str_eq run_id k
ends k _ = false

shut_of_closed :
    (run : RunSession) → is_closed run.status ≡ true → takes_requests run.status ≡ false
unfolding takes_requests
shut_of_closed run h = ground arith

target-cases : (t : Option String) (k : String) → (t ≡ some k) ⊎ (t ≢ some k)
target-cases none k = inr (λ h. cc)
target-cases (some j) k = elim (Bool-cases (str_eq j k)) [
  | inl e ↦ inl (ap some ((eq_iff j k).0 e))
  | inr e ↦ inr (λ h. false≢true (sym e ∙ (eq_iff j k).1 (of_some h)))
]

-- The operation on the run itself.
module _ (x : Platform) (k : String) (run : RunSession) (s : MutableLabState)
    (found : get k s.runs ≡ some run) (holds : is_some run.submission ≡ true)
    (shut : takes_requests run.status ≡ false) where
  after-own :
      (o : Operation)
      → target o ≡ some k
      → ends k o ≡ false
      → Fresh o s
      → Survives k run (after x o s)
  unfolding after
  after-own (creates scenario_seed scenario_id seed ids now) t e f =
      let missing : get k s.runs ≡ none = subst (λ j. get j s.runs ≡ none) (of_some t) f in
      absurd (cc (found, missing))
  after-own (claims_index run_id endpoint_id reply_count now) t e f =
      unfold claim_response_index in
      with_run-own x k run s found run_id _ (of_some t)
        (claim_index-Kept run shut endpoint_id reply_count now)
  after-own (claims_step run_id [] r now) t e f =
      unfold claim_fault_script_step in stays x k run s found
  after-own (claims_step run_id (first ∷ rest) r now) t e f =
      unfold claim_fault_script_step in
      with_run-own x k run s found run_id _ (of_some t)
        (claim_step-Kept run shut (first ∷ rest) r now)
  after-own (records run_id audit now) t e f =
      unfold record_request in
      with_run-own x k run s found run_id _ (of_some t) (append_record-Kept run shut audit now)
  after-own (measures run_id metrics) t e f =
      unfold set_response_metrics in
      with_run-own x k run s found run_id _ (of_some t) (update_metrics-Kept metrics run)
  after-own (spends run_id profiles r) t e f =
      unfold evaluate_quota in
      with_run-own x k run s found run_id _ (of_some t) (apply_quota-Kept run shut r profiles)
  after-own (cancels run_id virtual_wait_ms timestamp now) t e f =
      unfold cancel in
      with_run-own x k run s found run_id _ (of_some t)
        (cancel_run-Kept run shut virtual_wait_ms timestamp now)
  after-own (reports run_id report now) t e f =
      unfold set_report in
      with_run-own x k run s found run_id _ (of_some t) (complete-Kept report now run)
  after-own (freezes run_id submission now) t e f =
      subst (λ j. Survives k run (freeze_submission x j submission now s).1) (sym (of_some t))
        (rw (freeze-same x k run s found holds submission now) (stays x k run s found))
  after-own (resets run_id token now) t e f =
      absurd (false≢true (sym e ∙ (eq_iff run_id k).1 (of_some t)))
  after-own (deletes run_id now) t e f =
      absurd (false≢true (sym e ∙ (eq_iff run_id k).1 (of_some t)))
  after-own (develops run_id) t e f = absurd (cc t)
  after-own (controls run_id control) t e f = absurd (cc t)
  after-own (rejects rejected) t e f = absurd (cc t)

-- In a state that a history reached, a run that holds a submission keeps it, its audit but for the
-- transport metrics, its counters, its script cursor and its capability through every operation
-- but a reset or a deletion of that run.
pub after-frozen :
    {x : Platform} {s : MutableLabState} (r : Reach x s) (k : String) (run : RunSession)
    (o : Operation)
    → get k s.runs ≡ some run
    → is_some run.submission ≡ true
    → ends k o ≡ false
    → Fresh o s
    → Survives k run (after x o s)
after-frozen {x} {s} r k run o found holds e f = elim (target-cases (target o) k) [
  | inl t ↦ after-own x k run s found holds shut o t e f
  | inr t ↦ record { run' = run; found = after_other x o s k t ∙ found; kept = Kept-refl run }
]
  where
    shut : takes_requests run.status ≡ false
    shut = shut_of_closed run (((Reach-IsWellFormed r).sessions k run found).closed holds)
