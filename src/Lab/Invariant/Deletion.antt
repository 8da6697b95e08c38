-- ===== src/Lab/Invariant/Deletion.antt =====
-- `delete` keeps the state well-formed: the payload of the run goes with it.
use fqdn_forge.Base.{
  String, ◌≡◌, ◌↔◌, refl, inl, inr, Option, none, some, arith, eq_iff, Bool-cases, length-append,
}
use fqdn_forge.BTreeMap.{get, remove, get-remove}
use fqdn_forge.Model.Values.{DateTime}
use fqdn_forge.Lab.State.{RunSession, MutableLabState}
use fqdn_forge.Lab.Exec.{Platform, validate_run_id}
use fqdn_forge.Lab.Submission.{digest_of, release_owned, delete_found, delete}
use fqdn_forge.Lab.Invariant.Rules.{IsSound, IsWellFormed, held, held-remove}

module _ {x : Platform} {s : MutableLabState} (v : IsWellFormed x s) (run_id : String)
    (run : RunSession) (found : get run_id s.runs ≡ some run) where
  held_before : held x s.runs run_id ≡ digest_of x run.submission
  held_before = rw found

  remaining : (k : String) (r : RunSession) → get k (remove run_id s.runs) ≡ some r → IsSound k r
  remaining k r h = ground (arith, get-remove run_id k s.runs, eq_iff run_id k, v.sessions k r)

  same_name : run.run_id ≡ run_id
  same_name = (v.sessions run_id run found).named

  pub released-indexed :
      (digest : Option String)
      → digest_of x run.submission ≡ digest
      → (d k : String)
      → (held x (remove run_id s.runs) k ≡ some d)
        ↔ (get d (release_owned digest run.run_id s.submitted_payloads) ≡ some k)
  unfolding release_owned
  released-indexed none e d k = (
    λ h. ground (arith, held-remove x run_id k s.runs, v.owned d k),
    λ h.
        ground
          (arith, held-remove x run_id k s.runs, eq_iff run_id k, v.backed d k, held_before, e),
  )
  released-indexed (some digest) e d k = (
    λ h. ground (
      arith,
      held-remove x run_id k s.runs,
      eq_iff run_id k,
      eq_iff digest d,
      eq_iff run_id run.run_id,
      get-remove digest d s.submitted_payloads,
      v.owned d k,
      v.owned digest run_id,
      held_before,
      e,
      same_name,
    ),
    λ h. ground (
      arith,
      held-remove x run_id k s.runs,
      eq_iff run_id k,
      eq_iff digest d,
      eq_iff run_id run.run_id,
      get-remove digest d s.submitted_payloads,
      v.backed d k,
      v.owned digest run_id,
      held_before,
      e,
      same_name,
    ),
  )

  pub deleted-IsWellFormed :
      (now : DateTime) → IsWellFormed x (delete_found x run_id now (some run) s).1
  unfolding delete_found
  deleted-IsWellFormed now = record {
    sessions = remaining;
    owned = λ d k h. (released-indexed (digest_of x run.submission) refl d k).0 h;
    backed = λ d k h. (released-indexed (digest_of x run.submission) refl d k).1 h;
    tombstones = omega (arith, v.tombstones, length-append {0} s.deleted_run_history _);
  }

module _ {x : Platform} {s : MutableLabState} (v : IsWellFormed x s) (run_id : String)
    (now : DateTime) where
  delete_found-IsWellFormed :
      (o : Option RunSession)
      → get run_id s.runs ≡ o
      → IsWellFormed x (delete_found x run_id now o s).1
  unfolding delete_found
  delete_found-IsWellFormed none e = v
  delete_found-IsWellFormed (some run) e = deleted-IsWellFormed v run_id run e now

  pub delete-IsWellFormed : IsWellFormed x (delete x run_id now s).1
  unfolding delete
  delete-IsWellFormed = elim (Bool-cases (x.is_uuid run_id)) [
    | inl e ↦ rw (e, delete, validate_run_id) (delete_found-IsWellFormed (get run_id s.runs) refl)
    | inr e ↦ rw (e, delete, validate_run_id) v
  ]
