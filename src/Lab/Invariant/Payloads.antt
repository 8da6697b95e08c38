-- ===== src/Lab/Invariant/Payloads.antt =====
-- The operations that write the map of runs or the payload index keep the state well-formed.
use fqdn_forge.Base.{
  ℕ, String, ◌≡◌, refl, inl, inr, Option, none, some, arith, if◌then◌else◌, eq_iff, str_eq,
  Bool-cases, false≢true,
}
use fqdn_forge.BTreeMap.{get, set, insert, get-insert, get-remove}
use fqdn_forge.Model.Values.{DateTime}
use fqdn_forge.Lab.State.{RunSession, MutableLabState}
use fqdn_forge.Lab.Exec.{Platform, validate_run_id}
use fqdn_forge.Lab.Lifecycle.{FreshIds, new_session}
use fqdn_forge.Lab.Submission.{
  digest_of, release_payload, reset_session, reset_found, reset_and_rotate,
}
use fqdn_forge.Lab.Invariant.Rules.{
  IsSound, IsWellFormed, held, held-set, held-insert, set-sessions,
}

module _ {x : Platform} {s : MutableLabState} (v : IsWellFormed x s) where
  -- A fresh run holds nothing, and takes the place of nothing.
  module _ (scenario_id : String) (seed : ℕ) (ids : FreshIds) (now : DateTime)
      (fresh : get ids.run_id s.runs ≡ none) where
    pub create-IsWellFormed :
        IsWellFormed x
          (record s { runs = insert ids.run_id (new_session scenario_id seed ids now) s.runs })
    unfolding new_session digest_of
    create-IsWellFormed = record {
      sessions = λ k r h. ground (
        arith,
        get-insert ids.run_id k (new_session scenario_id seed ids now) s.runs,
        eq_iff ids.run_id k,
        v.sessions k r,
      );
      owned = λ d k h. ground (
        arith,
        held-insert x ids.run_id k (new_session scenario_id seed ids now) s.runs,
        eq_iff ids.run_id k,
        v.owned d k,
      );
      backed = λ d k h. ground (
        arith,
        held-insert x ids.run_id k (new_session scenario_id seed ids now) s.runs,
        eq_iff ids.run_id k,
        v.backed d k h,
      );
      tombstones = v.tombstones;
    }

  -- A reset drops the run's payload with its submission.
  module _ (run_id : String) (run : RunSession) (found : get run_id s.runs ≡ some run)
      (token : String) (now : DateTime) where
    after_reset : Option String → MutableLabState
    after_reset digest = record s {
      runs = set run_id (reset_session token now run) s.runs;
      submitted_payloads = release_payload digest s.submitted_payloads;
    }

    held_before : held x s.runs run_id ≡ digest_of x run.submission
    held_before = rw found

    held_after_reset :
        (k : String)
        → held x (set run_id (reset_session token now run) s.runs) k
          ≡ (if str_eq run_id k then none else held x s.runs k)
    unfolding reset_session digest_of
    held_after_reset k = held-set x run_id k run (reset_session token now run) s.runs found

    reset-IsSound : IsSound run_id (reset_session token now run)
    unfolding reset_session
    reset-IsSound =
        let i = v.sessions run_id run found in
        record {
          named = i.named;
          numbered = refl;
          closed = λ e. absurd (false≢true e);
          alive = refl;
        }

    reset-indexed :
        (digest : Option String)
        → digest_of x run.submission ≡ digest
        → IsWellFormed x (after_reset digest)
    unfolding after_reset release_payload
    reset-indexed none e = record {
      sessions = set-sessions v run_id run (reset_session token now run) found reset-IsSound;
      owned = λ d k h. ground (arith, held_after_reset k, eq_iff run_id k, v.owned d k);
      backed = λ d k h.
          ground (arith, held_after_reset k, eq_iff run_id k, v.backed d k h, held_before, e);
      tombstones = v.tombstones;
    }
    reset-indexed (some digest) e = record {
      sessions = set-sessions v run_id run (reset_session token now run) found reset-IsSound;
      owned = λ d k h. ground (
        arith,
        held_after_reset k,
        eq_iff run_id k,
        eq_iff digest d,
        get-remove digest d s.submitted_payloads,
        v.owned d k,
        v.owned d run_id,
        held_before,
        e,
      );
      backed = λ d k h. ground (
        arith,
        held_after_reset k,
        eq_iff run_id k,
        eq_iff digest d,
        get-remove digest d s.submitted_payloads,
        v.backed d k,
        held_before,
        e,
      );
      tombstones = v.tombstones;
    }

  reset_found-IsWellFormed :
      (run_id token : String) (now : DateTime) (o : Option RunSession)
      → get run_id s.runs ≡ o
      → IsWellFormed x (reset_found x run_id token now o s).1
  unfolding reset_found after_reset
  reset_found-IsWellFormed run_id token now none e = v
  reset_found-IsWellFormed run_id token now (some run) e =
      reset-indexed run_id run e token now (digest_of x run.submission) refl

  pub reset-IsWellFormed :
      (run_id token : String) (now : DateTime)
      → IsWellFormed x (reset_and_rotate x run_id token now s).1
  unfolding reset_and_rotate
  reset-IsWellFormed run_id token now = elim (Bool-cases (x.is_uuid run_id)) [
    | inl e ↦
        rw (e, reset_and_rotate, validate_run_id)
          (reset_found-IsWellFormed run_id token now (get run_id s.runs) refl)
    | inr e ↦ rw (e, reset_and_rotate, validate_run_id) v
  ]
