-- ===== src/Plan/Revisions.antt =====
-- What an update of a stored plan leaves: revisions, and plans that two clients edit.
use fqdn_forge.Base.{
  ℕ, ◌+◌, ◌<◌, String, ◌≡◌, refl, sym, ap, ap₂, subst, ◌∙◌, Bool, true, false, Option, none, some,
  arith, Result, ok, err, ◌>>◌, >>=-eq-ok, ok_inj, err-ne-ok, str_eq, eq_iff, if◌then◌else◌,
  saturating_add, u64_max, is_some,
}
use fqdn_forge.BTreeMap.{BTreeMap, get, remove, contains_key, get-insert, get-remove}
use fqdn_forge.Model.Values.{DateTime}
use fqdn_forge.Plan.Definition.{ExperimentPlan}
use fqdn_forge.Plan.Validation.{PlanTools}
use fqdn_forge.Plan.Store.{
  PlanStore, PlanIo, canonical, commit, found, not_found, revised, conflict, check_revision,
  try_update, update_if_revision, plan_file, remove_file, after_removal, delete,
}
use fqdn_forge.Plan.Stored.{save-eq-ok, canonical-eq-ok, found-eq-ok, remove_file-get}

-- What a successful update did.
pub record Updated (s : PlanStore) (plan_id : String) (expected : Option ℕ) (now : DateTime)
    (c : ExperimentPlan) (s' : PlanStore) : Type 0 where
  pub prior : ExperimentPlan
  pub was_there : get plan_id s.plans ≡ some prior
  pub seen : (revision : ℕ) → expected ≡ some revision → prior.revision ≡ revision
  pub own_id : c.plan_id ≡ plan_id
  pub next : c.revision ≡ saturating_add prior.revision 1
  pub created_at : c.created_at ≡ prior.created_at
  pub updated_at : c.updated_at ≡ now
  pub get_after :
      (k : String) → get k s'.plans ≡ (if str_eq plan_id k then some c else get k s.plans)

check_revision-eq-ok :
    (plan_id : String) (expected : Option ℕ) (stored : ℕ) (u : Unit)
    → check_revision plan_id expected stored ≡ ok u
    → (revision : ℕ) → expected ≡ some revision
    → stored ≡ revision
check_revision-eq-ok plan_id none stored u h revision e = cc
check_revision-eq-ok plan_id (some seen) stored u h revision e = ground (arith, h, e)

commit-eq-ok :
    {A : Type 0} (s s' : PlanStore) (m : Result String (A × PlanStore)) (a : A)
    → commit s m ≡ (ok a, s')
    → m ≡ ok (a, s')
commit-eq-ok s s' (ok (b, t)) a h =
    ap₂ (λ v w. ok (v, w)) (ok_inj (ap (λ r. r.0) h)) (ap (λ r. r.1) h)
commit-eq-ok s s' (err e) a h = absurd (err-ne-ok (ap (λ r. r.0) h))

-- An update that succeeds found the plan, at the revision that the caller named if it named one. The
-- plan that it returns has the identifier, the time of creation and the revision after that of the
-- stored plan, and the time of the update; it takes the place of the stored plan, and no other plan
-- changes.
pub update_if_revision-eq-ok :
    (x : PlanTools) (io : PlanIo) (now : DateTime) (plan_id : String) (plan c : ExperimentPlan)
    (expected : Option ℕ) (s s' : PlanStore)
    → update_if_revision x io now plan_id plan expected s ≡ (ok c, s')
    → Updated s plan_id expected now c s'
unfolding update_if_revision try_update revised
update_if_revision-eq-ok x io now plan_id plan c expected s s' h =
    let m = commit-eq-ok s s' (try_update x io now plan_id plan expected s) c h in
    let (prior, e0, h0) = >>=-eq-ok (found plan_id (get plan_id s.plans)) _ m in
    let (u1, e1, h1) = >>=-eq-ok (check_revision plan_id expected prior.revision) _ h0 in
    let (d, e2, h2) = >>=-eq-ok (canonical x (revised plan_id prior now plan)) _ h1 in
    let same = (canonical-eq-ok x (revised plan_id prior now plan) d e2).1 in
    let (same_plan, text, shown, store) = save-eq-ok x io plan_id d s s' c same.identifier h2 in
    let id : c.plan_id ≡ plan_id = ap (λ p. p.plan_id) same_plan ∙ same.identifier in
    record {
      prior = prior;
      was_there = found-eq-ok plan_id (get plan_id s.plans) prior e0;
      seen = check_revision-eq-ok plan_id expected prior.revision u1 e1;
      own_id = id;
      next = ap (λ p. p.revision) same_plan ∙ same.revision;
      created_at = ap (λ p. p.created_at) same_plan ∙ same.created_at;
      updated_at = ap (λ p. p.updated_at) same_plan ∙ same.updated_at;
      get_after = λ k.
          ap (get k) (ap (λ t. t.plans) store)
          ∙ get-insert d.plan_id k d s.plans
          ∙ ap₂ (λ i p. if str_eq i k then some p else get k s.plans) same.identifier
              (sym same_plan);
    }

-- Of two clients that edit a plan from the same revision, the second fails: after an update that
-- named the revision `r` succeeded, any update that names `r` again is refused as a conflict and
-- changes nothing, if `r` is below the greatest `u64`.
pub lost_update :
    (x : PlanTools) (io io' : PlanIo) (now now' : DateTime) (plan_id : String)
    (mine theirs c : ExperimentPlan) (r : ℕ) (s s' : PlanStore)
    → update_if_revision x io now plan_id mine (some r) s ≡ (ok c, s')
    → r < u64_max
    → update_if_revision x io' now' plan_id theirs (some r) s'
      ≡ (err (conflict plan_id (r + 1) r), s')
unfolding update_if_revision try_update
lost_update x io io' now now' plan_id mine theirs c r s s' h small =
    let u = update_if_revision-eq-ok x io now plan_id mine c (some r) s s' h in
    let there : get plan_id s'.plans ≡ some c =
      ground (arith, u.get_after plan_id, eq_iff plan_id plan_id) in
    let old : u.prior.revision ≡ r = u.seen r refl in
    let rev : c.revision ≡ r + 1 = ground (arith, u.next, old) in
    let refused : check_revision plan_id (some r) c.revision ≡ err (conflict plan_id (r + 1) r) =
      ground (arith, rev) in
    rw there (rw refused refl)

after_removal-err :
    (s s' : PlanStore) (m : Result String (BTreeMap String)) (e : String)
    → after_removal s m ≡ (err e, s')
    → s' ≡ s
after_removal-err s s' (ok files) e h = absurd (err-ne-ok (sym (ap (λ r. r.0) h)))
after_removal-err s s' (err e') e h = sym (ap (λ r. r.1) h)

-- A deletion that fails for a stored plan: the plan is gone from memory and its file is still there.
pub delete-err :
    (io : PlanIo) (plan_id e : String) (p : ExperimentPlan) (s s' : PlanStore)
    → get plan_id s.plans ≡ some p
    → delete io plan_id s ≡ (err e, s')
    → (get plan_id s'.plans ≡ none) × (s'.files ≡ s.files)
unfolding delete
delete-err io plan_id e p s s' there h =
    let left = record s { plans = remove plan_id s.plans } in
    let m = plan_file plan_id >> remove_file io plan_id s.files in
    let ran : after_removal left m ≡ (err e, s') =
      subst
        (λ o.
          (if is_some o then after_removal left m else (err (not_found plan_id), s)) ≡ (err e, s'))
        there h in
    let store = after_removal-err left s' m e ran in
    (
      subst (λ t. get plan_id t.plans ≡ none) (sym store)
          (ground (arith, get-remove plan_id plan_id s.plans, eq_iff plan_id plan_id)),
      ap (λ t. t.files) store,
    )

after_removal-ok :
    (s s' : PlanStore) (m : Result String (BTreeMap String)) (u : Unit)
    → after_removal s m ≡ (ok u, s')
    → (files : BTreeMap String) × (m ≡ ok files) × (s' ≡ record s { files = files })
after_removal-ok s s' (ok files) u h = (files, refl, sym (ap (λ r. r.1) h))
after_removal-ok s s' (err e) u h = absurd (err-ne-ok (ap (λ r. r.0) h))

gone :
    {V : Type 0} (k : String) (m : BTreeMap V) {o : Option V}
    → o ≡ (if str_eq k k then none else get k m)
    → o ≡ none
gone k m h = ground (arith, h, eq_iff k k)

-- A deletion that succeeds leaves the plan neither in memory nor as a file.
pub delete-eq-ok :
    (io : PlanIo) (plan_id : String) (s s' : PlanStore) (u : Unit)
    → delete io plan_id s ≡ (ok u, s')
    → (get plan_id s'.plans ≡ none) × (get plan_id s'.files ≡ none)
unfolding delete
delete-eq-ok io plan_id s s' u h = by_case (contains_key plan_id s.plans) h
  where
    left : PlanStore
    left = record s { plans = remove plan_id s.plans }

    m : Result String (BTreeMap String)
    m = plan_file plan_id >> remove_file io plan_id s.files

    by_case :
        (b : Bool)
        → (if b then after_removal left m else (err (not_found plan_id), s)) ≡ (ok u, s')
        → (get plan_id s'.plans ≡ none) × (get plan_id s'.files ≡ none)
    by_case false h = absurd (err-ne-ok (ap (λ r. r.0) h))
    by_case true h =
        let (files, e, store) = after_removal-ok left s' m u h in
        let (v, safe, e1) = >>=-eq-ok (plan_file plan_id) _ e in
        (
          ap (get plan_id) (ap (λ t. t.plans) store)
              ∙ gone plan_id s.plans (get-remove plan_id plan_id s.plans),
          ap (get plan_id) (ap (λ t. t.files) store)
              ∙ gone plan_id s.files (remove_file-get io plan_id plan_id s.files files e1),
        )
