-- ===== src/Lab/Invariant/Rules.antt =====
-- The well-formedness of the state of state.rs, and the rules for operations that write one session.
use fqdn_forge.Base.{
  ℕ, zero, suc, String, ◌≡◌, refl, inl, inr, Bool, true, false, Option, none, some, List, [], ◌∷◌,
  map, arith, if◌then◌else◌, eq_iff, str_eq, is_some, length, Bool-cases,
}
use fqdn_forge.BTreeMap.{BTreeMap, get, set, insert, remove, get-set, get-insert, get-remove}
use fqdn_forge.Model.Audit.{AuditRecord}
use fqdn_forge.Lab.State.{RunSession, RunSessionStatus, MutableLabState}
use fqdn_forge.Lab.Exec.{Platform, OnRun, in_run, with_run}
use fqdn_forge.Lab.Submission.{digest_of}

-- n, n + 1, …, as many as the second argument says.
abbrev pub numbers : ℕ → ℕ → List ℕ
numbers n zero = []
numbers n (suc k) = n ∷ numbers (suc n) k

abbrev pub sequences : List AuditRecord → List ℕ
sequences = map λ r. r.sequence

-- Submitted or completed.
abbrev pub is_closed : RunSessionStatus → Bool
is_closed RunSessionStatus.submitted = true
is_closed RunSessionStatus.completed = true
is_closed _ = false

abbrev pub is_alive : RunSessionStatus → Bool
is_alive RunSessionStatus.expired = false
is_alive _ = true

-- A session under its key: it has its key's name, numbers its audit from 1 without a gap, is
-- closed if it holds a submission, and is not expired.
pub record IsSound (k : String) (run : RunSession) : Type 0 where
  pub named : run.run_id ≡ k
  pub numbered : sequences run.audit ≡ numbers 1 (length run.audit)
  pub closed : is_some run.submission ≡ true → is_closed run.status ≡ true
  pub alive : is_alive run.status ≡ true

-- The digest of the submission that a run holds, if the run is there and holds one.
abbrev pub digest_in : Platform → Option RunSession → Option String
digest_in x none = none
digest_in x (some run) = digest_of x run.submission

abbrev pub held : Platform → BTreeMap RunSession → String → Option String
held x runs k = digest_in x (get k runs)

-- Every session is sound, the payload index says exactly which run holds which payload, and the
-- tombstones are counted.
pub record IsWellFormed (x : Platform) (s : MutableLabState) : Type 0 where
  pub sessions : (k : String) (run : RunSession) → get k s.runs ≡ some run → IsSound k run
  pub owned : (d k : String) → held x s.runs k ≡ some d → get d s.submitted_payloads ≡ some k
  pub backed : (d k : String) → get d s.submitted_payloads ≡ some k → held x s.runs k ≡ some d
  pub tombstones : s.deleted_runs ≡ length s.deleted_run_history

-- The body keeps a sound session sound, and its submission as it is.
pub record KeepsSound {A : Type 0} (body : OnRun A) : Type 0 where
  pub sound : (k : String) (run : RunSession) → IsSound k run → IsSound k (body run).1
  pub submission : (run : RunSession) → (body run).1.submission ≡ run.submission

-- What the runs hold after a write of one entry.
pub held-set :
    (x : Platform) (run_id k : String) (run run' : RunSession) (runs : BTreeMap RunSession)
    → get run_id runs ≡ some run
    → held x (set run_id run' runs) k
      ≡ (if str_eq run_id k then digest_of x run'.submission else held x runs k)
held-set x run_id k run run' runs found =
    rw (get-set run_id k run' run runs found) (ground (arith, eq_iff run_id k))

pub held-insert :
    (x : Platform) (run_id k : String) (run : RunSession) (runs : BTreeMap RunSession)
    → held x (insert run_id run runs) k
      ≡ (if str_eq run_id k then digest_of x run.submission else held x runs k)
held-insert x run_id k run runs =
    rw (get-insert run_id k run runs) (ground (arith, eq_iff run_id k))

pub held-remove :
    (x : Platform) (run_id k : String) (runs : BTreeMap RunSession)
    → held x (remove run_id runs) k ≡ (if str_eq run_id k then none else held x runs k)
held-remove x run_id k runs = rw (get-remove run_id k runs) (ground (arith, eq_iff run_id k))

module _ {x : Platform} {s : MutableLabState} (v : IsWellFormed x s) where
  module _ (run_id : String) (run run' : RunSession) (found : get run_id s.runs ≡ some run) where
    -- A sound session may replace the old session.
    pub set-sessions :
        IsSound run_id run'
        → (k : String) (r : RunSession) → get k (set run_id run' s.runs) ≡ some r
        → IsSound k r
    set-sessions i k r h =
        ground (arith, get-set run_id k run' run s.runs found, eq_iff run_id k, v.sessions k r)

    -- With the old submission the payload index still fits.
    pub set-IsWellFormed :
        run'.submission ≡ run.submission
        → IsSound run_id run'
        → IsWellFormed x (record s { runs = set run_id run' s.runs })
    set-IsWellFormed same i = record {
      sessions = set-sessions i;
      owned = λ d k h.
          ground (arith, held-set x run_id k run run' s.runs found, eq_iff run_id k, v.owned d k);
      backed = λ d k h.
          ground (arith, held-set x run_id k run run' s.runs found, eq_iff run_id k, v.backed d k);
      tombstones = v.tombstones;
    }

  module _ {A : Type 0} (run_id : String) (body : OnRun A) (keeps : KeepsSound body) where
    in_run-IsWellFormed :
        (o : Option RunSession) → get run_id s.runs ≡ o → IsWellFormed x (in_run run_id body o s).1
    unfolding in_run
    in_run-IsWellFormed none e = v
    in_run-IsWellFormed (some run) e =
        set-IsWellFormed run_id run (body run).1 e (keeps.submission run)
          (keeps.sound run_id run (v.sessions run_id run e))

    -- An operation on one session keeps the state well-formed if its body keeps sessions sound.
    pub with_run-IsWellFormed : IsWellFormed x (with_run x run_id body s).1
    unfolding with_run
    with_run-IsWellFormed = elim (Bool-cases (x.is_uuid run_id)) [
      | inl e ↦ rw (e, with_run) (in_run-IsWellFormed (get run_id s.runs) refl)
      | inr e ↦ rw (e, with_run) v
    ]
