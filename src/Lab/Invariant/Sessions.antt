-- ===== src/Lab/Invariant/Sessions.antt =====
-- Each operation on one session keeps it sound, and leaves its submission alone.
use mathlib.Core.List.{map-append, reverse-cons, reverse-reverse}
use fqdn_forge.Base.{
  ℕ, zero, suc, ◌+◌, String, ◌≡◌, refl, sym, ap, ◌∙◌, Bool, true, Option, none, some, List, [], ◌∷◌,
  ◌++◌, map, reverse, arith, get_elem?, length, length-append, Bool-cases, inl, inr,
}
use fqdn_forge.Model.Values.{DateTime}
use fqdn_forge.Model.Scenario.{FaultScriptStep, QuotaProfile}
use fqdn_forge.Model.Audit.{AuditRecord}
use fqdn_forge.Model.Report.{RunReport}
use fqdn_forge.Lab.State.{RunSession, ResponseMetrics, FaultScriptClaim}
use fqdn_forge.Lab.Exec.{takes_requests}
use fqdn_forge.Lab.Requests.{
  claim_index, append_record, update_metrics, answers, with_metrics, update_first,
}
use fqdn_forge.Lab.Script.{ScriptRequest, advance, judge_step, claim_at, claim_step}
use fqdn_forge.Lab.Quota.{QuotaRequest, apply_quota}
use fqdn_forge.Lab.Lifecycle.{cancel_run, cancel_record}
use fqdn_forge.Lab.Submission.{complete}
use fqdn_forge.Lab.Invariant.Rules.{IsSound, KeepsSound, numbers, sequences}

numbers-suc : (n k : ℕ) → numbers n (k + 1) ≡ numbers n k ++ (n + k) ∷ []
numbers-suc n zero = ground arith
numbers-suc n (suc k) = ground (arith, numbers-suc (suc n) k)

-- One more record, with the next number.
numbered-append :
    (audit : List AuditRecord) (r : AuditRecord)
    → sequences audit ≡ numbers 1 (length audit)
    → r.sequence ≡ length audit + 1
    → sequences (audit ++ r ∷ []) ≡ numbers 1 (length (audit ++ r ∷ []))
numbered-append audit r h e = ground (
  arith,
  map-append (λ (a : AuditRecord). a.sequence) audit (r ∷ []),
  length-append audit (r ∷ []),
  numbers-suc 1 (length audit),
)

map-reverse : {A B : Type 0} (f : A → B) (xs : List A) → map f (reverse xs) ≡ reverse (map f xs)
map-reverse f [] = refl
map-reverse f (x ∷ xs) =
    ap (map f) (reverse-cons x xs)
    ∙ map-append f (reverse xs) (x ∷ [])
    ∙ ap (λ l. l ++ f x ∷ []) (map-reverse f xs)
    ∙ sym (reverse-cons (f x) (map f xs))

-- A view of the records that a change leaves alone is left alone by a write to one record.
module _ {B : Type 0} (view : AuditRecord → B) (change : AuditRecord → AuditRecord) where
  map-update_first :
      (found : AuditRecord → Bool)
      → ((r : AuditRecord) → view (change r) ≡ view r)
      → (audit : List AuditRecord) → map view (update_first found change audit) ≡ map view audit
  unfolding update_first
  map-update_first found same [] = refl
  map-update_first found same (r ∷ rest) = ground (arith, same r, map-update_first found same rest)

  pub map-update_last :
      (found : AuditRecord → Bool)
      → ((r : AuditRecord) → view (change r) ≡ view r)
      → (audit : List AuditRecord)
      → map view (reverse (update_first found change (reverse audit))) ≡ map view audit
  map-update_last found same audit =
      map-reverse view (update_first found change (reverse audit))
      ∙ ap reverse (map-update_first found same (reverse audit))
      ∙ ap reverse (map-reverse view audit)
      ∙ reverse-reverse (map view audit)

length-map : {A B : Type 0} (f : A → B) (xs : List A) → length (map f xs) ≡ length xs
length-map f [] = refl
length-map f (x ∷ xs) = ap suc (length-map f xs)

pub claim_index-KeepsSound :
    (e : String) (n : ℕ) (now : DateTime) → KeepsSound (claim_index e n now)
unfolding claim_index
claim_index-KeepsSound e n now = record {
  sound = λ k run i. ground arith;
  submission = λ run. ground arith;
}

pub append_record-KeepsSound : (a : AuditRecord) (now : DateTime) → KeepsSound (append_record a now)
unfolding append_record
append_record-KeepsSound a now = record {
  sound = λ k run i. ground (
    arith,
    numbered-append run.audit
        (record a { sequence = length run.audit + 1; before_submission = true }) i.numbered refl,
  );
  submission = λ run. ground arith;
}

pub update_metrics-KeepsSound : (m : ResponseMetrics) → KeepsSound (update_metrics m)
unfolding update_metrics with_metrics
update_metrics-KeepsSound m = record {
  sound = λ k run i.
      let same =
        map-update_last (λ r. r.sequence) (with_metrics m) (answers m) (λ r. refl) run.audit in
      let size =
        sym (length-map (λ (r : AuditRecord). r.sequence) _)
        ∙ ap length same
        ∙ length-map (λ (r : AuditRecord). r.sequence) run.audit in
      record {
        named = i.named;
        numbered = same ∙ i.numbered ∙ ap (numbers 1) (sym size);
        closed = i.closed;
        alive = i.alive;
      };
  submission = λ run. refl;
}

advance-IsSound :
    (k : String) (now : DateTime) (c : FaultScriptClaim) (run : RunSession)
    → IsSound k run
    → IsSound k (advance now c run)
unfolding advance
advance-IsSound k now (FaultScriptClaim.matched step) run i = ground arith
advance-IsSound k now _ run i = i

advance-submission :
    (now : DateTime) (c : FaultScriptClaim) (run : RunSession)
    → (advance now c run).submission ≡ run.submission
unfolding advance
advance-submission now (FaultScriptClaim.matched step) run = refl
advance-submission now _ run = refl

claim_at-IsSound :
    (k : String) (r : ScriptRequest) (now : DateTime) (run : RunSession)
    (o : Option FaultScriptStep)
    → IsSound k run
    → IsSound k (claim_at r now run o).1
unfolding claim_at
claim_at-IsSound k r now run none i = i
claim_at-IsSound k r now run (some step) i = advance-IsSound k now (judge_step r step) run i

claim_at-submission :
    (r : ScriptRequest) (now : DateTime) (run : RunSession) (o : Option FaultScriptStep)
    → (claim_at r now run o).1.submission ≡ run.submission
unfolding claim_at
claim_at-submission r now run none = refl
claim_at-submission r now run (some step) = advance-submission now (judge_step r step) run

pub claim_step-KeepsSound :
    (script : List FaultScriptStep) (r : ScriptRequest) (now : DateTime)
    → KeepsSound (claim_step script r now)
unfolding claim_step
claim_step-KeepsSound script r now = record {
  sound = λ k run i. elim (Bool-cases (takes_requests run.status)) [
    | inl e ↦
        rw (e, claim_step)
          (claim_at-IsSound k r now run (get_elem? script run.fault_script_cursor) i)
    | inr e ↦ rw (e, claim_step) i
  ];
  submission = λ run. elim (Bool-cases (takes_requests run.status)) [
    | inl e ↦
        rw (e, claim_step)
          (claim_at-submission r now run (get_elem? script run.fault_script_cursor))
    | inr e ↦ rw (e, claim_step)
  ];
}

pub apply_quota-KeepsSound :
    (r : QuotaRequest) (profiles : List QuotaProfile) → KeepsSound (apply_quota r profiles)
unfolding apply_quota
apply_quota-KeepsSound r profiles = record {
  sound = λ k run i. ground arith;
  submission = λ run. ground arith;
}

pub cancel_run-KeepsSound :
    (w : ℕ) (timestamp now : DateTime) → KeepsSound (cancel_run w timestamp now)
unfolding cancel_run
cancel_run-KeepsSound w timestamp now = record {
  sound = λ k run i.
      ground (arith, numbered-append run.audit (cancel_record run w timestamp) i.numbered refl);
  submission = λ run. ground arith;
}

pub complete-KeepsSound : (report : RunReport) (now : DateTime) → KeepsSound (complete report now)
unfolding complete
complete-KeepsSound report now = record {
  sound = λ k run i. ground arith;
  submission = λ run. refl;
}

pub ruleset session_rules = (
  claim_index-KeepsSound, append_record-KeepsSound, update_metrics-KeepsSound,
  claim_step-KeepsSound, apply_quota-KeepsSound, cancel_run-KeepsSound, complete-KeepsSound,
)
