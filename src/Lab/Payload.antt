-- ===== src/Lab/Payload.antt =====
-- A payload belongs to one run: what `freeze_submission` answers.
use fqdn_forge.Base.{
  String, ◌≡◌, ◌≢◌, refl, sym, ◌∙◌, inl, inr, true, false, some, arith, eq_iff, eq_refl, str_eq,
  is_some, Bool-cases, Option-cases, false≢true,
}
use fqdn_forge.BTreeMap.{get, get-set, get-insert}
use fqdn_forge.Model.Values.{DateTime}
use fqdn_forge.Model.Collector.{CollectorSubmission}
use fqdn_forge.Lab.State.{RunSession, RunStateError, MutableLabState}
use fqdn_forge.Lab.Exec.{Platform, ok, err, validate_run_id}
use fqdn_forge.Lab.Submission.{
  digest_of, takes_submission, taken_by_other, freeze_in, freeze_found, freeze_submission,
}
use fqdn_forge.Lab.Step.{Reach}
use fqdn_forge.Lab.Invariant.Rules.{held}
use fqdn_forge.Lab.Invariant.History.{Reach-IsWellFormed}

module _ (x : Platform) (s : MutableLabState) (run_id : String) (run : RunSession)
    (submission : CollectorSubmission) (now : DateTime) (digest : String)
    (valid : x.is_uuid run_id ≡ true) (found : get run_id s.runs ≡ some run)
    (encoded : x.to_json submission ≡ some digest) where
  freeze_reaches :
      freeze_submission x run_id submission now s
      ≡ freeze_found run_id submission now (some digest) (some run) s
  unfolding freeze_submission
  freeze_reaches = rw (valid, freeze_submission, validate_run_id) (rw (encoded, found))

  pub freeze_taken :
      taken_by_other run_id digest s.submitted_payloads ≡ true
      → freeze_submission x run_id submission now s ≡ (err RunStateError.cross_run_submission, s)
  unfolding freeze_found
  freeze_taken t = freeze_reaches ∙ (rw (t, freeze_found))

  -- What the state is once the payload is accepted.
  pub freeze_accepts :
      taken_by_other run_id digest s.submitted_payloads ≡ false
      → is_some run.submission ≡ false
      → takes_submission run.status ≡ true
      → ((freeze_submission x run_id submission now s).0 ≡ ok tt)
        × (held x (freeze_submission x run_id submission now s).1.runs run_id ≡ some digest)
        × (get digest (freeze_submission x run_id submission now s).1.submitted_payloads
            ≡ some run_id)
  unfolding freeze_found freeze_in digest_of
  freeze_accepts t e o =
      rw (freeze_reaches, freeze_found, t)
        (rw (e, o)
          (
            refl,
            rw (get-set run_id run_id _ run s.runs found, eq_refl) encoded,
            rw (get-insert digest digest run_id s.submitted_payloads, eq_refl),
          ))

module _ {x : Platform} {s : MutableLabState} (r : Reach x s) (run_id digest : String) where
  -- The payload index refuses a run exactly where another run holds the payload.
  taken_of_held :
      (k : String)
      → held x s.runs k ≡ some digest
      → k ≢ run_id
      → taken_by_other run_id digest s.submitted_payloads ≡ true
  unfolding taken_by_other
  taken_of_held k h other =
      ground (arith, (Reach-IsWellFormed r).owned digest k h, eq_iff k run_id, other)

  free_of_unheld :
      ((k : String) → k ≢ run_id → held x s.runs k ≢ some digest)
      → taken_by_other run_id digest s.submitted_payloads ≡ false
  unfolding taken_by_other
  free_of_unheld unheld = elim (Option-cases (get digest s.submitted_payloads)) [
    | inl e ↦ rw e
    | inr (k, e) ↦ elim (Bool-cases (str_eq k run_id)) [
      | inl same ↦ rw (e, same)
      | inr other ↦ absurd (
          unheld k (λ p. false≢true (sym other ∙ (eq_iff k run_id).1 p))
            ((Reach-IsWellFormed r).backed digest k e))
    ]
  ]

-- In a state that a history reached, a payload that a run holds is refused to every other run that
-- is there, and the refusal changes nothing.
pub freeze-held_by_other :
    {x : Platform} {s : MutableLabState} (r : Reach x s) (run_id k : String) (run : RunSession)
    (submission : CollectorSubmission) (now : DateTime) (digest : String)
    → x.is_uuid run_id ≡ true
    → get run_id s.runs ≡ some run
    → x.to_json submission ≡ some digest
    → held x s.runs k ≡ some digest
    → k ≢ run_id
    → freeze_submission x run_id submission now s ≡ (err RunStateError.cross_run_submission, s)
freeze-held_by_other {x} {s} r run_id k run submission now digest valid found encoded h other =
    freeze_taken x s run_id run submission now digest valid found encoded
      (taken_of_held r run_id digest k h other)

-- In a state that a history reached, a run that holds no submission, is active, reset or cancelled,
-- and whose payload no other run holds, has it accepted: it then holds the payload, and the index
-- names it.
pub freeze-accepted :
    {x : Platform} {s : MutableLabState} (r : Reach x s) (run_id : String) (run : RunSession)
    (submission : CollectorSubmission) (now : DateTime) (digest : String)
    → x.is_uuid run_id ≡ true
    → get run_id s.runs ≡ some run
    → x.to_json submission ≡ some digest
    → is_some run.submission ≡ false
    → takes_submission run.status ≡ true
    → ((k : String) → k ≢ run_id → held x s.runs k ≢ some digest)
    → ((freeze_submission x run_id submission now s).0 ≡ ok tt)
      × (held x (freeze_submission x run_id submission now s).1.runs run_id ≡ some digest)
      × (get digest (freeze_submission x run_id submission now s).1.submitted_payloads
          ≡ some run_id)
freeze-accepted {x} {s} r run_id run submission now digest valid found encoded vacant open' unheld =
    freeze_accepts x s run_id run submission now digest valid found encoded
      (free_of_unheld r run_id digest unheld) vacant open'
