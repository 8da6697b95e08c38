-- ===== src/Lab/Invariant/Freezing.antt =====
-- `freeze_submission` keeps the state well-formed: the payload index learns the new owner.
use fqdn_forge.Base.{
  String, ◌≡◌, refl, inl, inr, false, Option, none, some, arith, if◌then◌else◌, eq_iff, str_eq,
  is_some, Bool-cases,
}
use fqdn_forge.BTreeMap.{get, set, insert, get-insert}
use fqdn_forge.Model.Values.{DateTime}
use fqdn_forge.Model.Collector.{CollectorSubmission}
use fqdn_forge.Lab.State.{RunSession, RunSessionStatus, MutableLabState}
use fqdn_forge.Lab.Exec.{Platform, validate_run_id}
use fqdn_forge.Lab.Submission.{
  digest_of, freeze_in, freeze_found, freeze_submission, taken_by_other, takes_submission,
}
use fqdn_forge.Lab.Invariant.Rules.{IsSound, IsWellFormed, held, held-set, set-sessions}

module _ {x : Platform} {s : MutableLabState} (v : IsWellFormed x s) (run_id : String)
    (run : RunSession) (found : get run_id s.runs ≡ some run) (submission : CollectorSubmission)
    (now : DateTime) (digest : String) (encoded : x.to_json submission ≡ some digest) where
  frozen_run : RunSession
  frozen_run = record run {
    submission = some submission;
    status = RunSessionStatus.submitted;
    last_activity_at = now;
  }

  frozen-IsSound : IsSound run_id frozen_run
  unfolding frozen_run
  frozen-IsSound =
      let i = v.sessions run_id run found in
      record { named = i.named; numbered = i.numbered; closed = λ _. refl; alive = refl }

  held_after_freeze :
      (k : String)
      → held x (set run_id frozen_run s.runs) k
        ≡ (if str_eq run_id k then some digest else held x s.runs k)
  unfolding frozen_run digest_of
  held_after_freeze k = ground (arith, held-set x run_id k run frozen_run s.runs found, encoded)

  module _ (free : taken_by_other run_id digest s.submitted_payloads ≡ false)
      (vacant : is_some run.submission ≡ false) where
    vacant_before : held x s.runs run_id ≡ none
    unfolding digest_of
    vacant_before = ground (arith, found)

    -- Nobody but the run itself can be registered for the payload.
    owner : (k : String) → get digest s.submitted_payloads ≡ some k → run_id ≡ k
    unfolding taken_by_other
    owner k h = ground (arith, free, eq_iff k run_id)

    frozen-IsWellFormed : IsWellFormed x (record s {
      runs = set run_id frozen_run s.runs;
      submitted_payloads = insert digest run_id s.submitted_payloads;
    })
    frozen-IsWellFormed = record {
      sessions = set-sessions v run_id run frozen_run found frozen-IsSound;
      owned = λ d k h. ground (
        arith,
        held_after_freeze k,
        eq_iff run_id k,
        eq_iff digest d,
        get-insert digest d run_id s.submitted_payloads,
        v.owned d k,
        owner k,
      );
      backed = λ d k h. ground (
        arith,
        held_after_freeze k,
        eq_iff run_id k,
        eq_iff digest d,
        get-insert digest d run_id s.submitted_payloads,
        v.backed d k,
        vacant_before,
      );
      tombstones = v.tombstones;
    }

  freeze_in-IsWellFormed :
      taken_by_other run_id digest s.submitted_payloads ≡ false
      → IsWellFormed x (freeze_in run_id submission now digest run s).1
  unfolding freeze_in frozen_run
  freeze_in-IsWellFormed free = elim (Bool-cases (is_some run.submission)) [
    | inl e ↦ rw (e, freeze_in) v
    | inr vacant ↦ elim (Bool-cases (takes_submission run.status)) [
      | inl e ↦ rw (vacant, e, freeze_in) (frozen-IsWellFormed free vacant)
      | inr e ↦ rw (vacant, e, freeze_in) v
    ]
  ]

module _ {x : Platform} {s : MutableLabState} (v : IsWellFormed x s) (run_id : String)
    (submission : CollectorSubmission) (now : DateTime) where
  freeze_found-IsWellFormed :
      (digest : Option String) (o : Option RunSession)
      → x.to_json submission ≡ digest
      → get run_id s.runs ≡ o
      → IsWellFormed x (freeze_found run_id submission now digest o s).1
  unfolding freeze_found
  freeze_found-IsWellFormed none o d e = v
  freeze_found-IsWellFormed (some digest) none d e = v
  freeze_found-IsWellFormed (some digest) (some run) d e =
      elim (Bool-cases (taken_by_other run_id digest s.submitted_payloads)) [
        | inl t ↦ rw (t, freeze_found) v
        | inr t ↦
            rw (t, freeze_found) (freeze_in-IsWellFormed v run_id run e submission now digest d t)
      ]

  pub freeze-IsWellFormed : IsWellFormed x (freeze_submission x run_id submission now s).1
  unfolding freeze_submission
  freeze-IsWellFormed = elim (Bool-cases (x.is_uuid run_id)) [
    | inl e ↦
        rw (e, freeze_submission, validate_run_id)
          (freeze_found-IsWellFormed (x.to_json submission) (get run_id s.runs) refl refl)
    | inr e ↦ rw (e, freeze_submission, validate_run_id) v
  ]
