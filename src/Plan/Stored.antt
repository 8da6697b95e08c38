-- ===== src/Plan/Stored.antt =====
-- What every `PlanStore` holds that is reached from an opened one.
use Prim.Native.String.{len}
use fqdn_forge.Base.{
  ℕ, String, ◌≡◌, refl, sym, ap, ap₂, subst, ◌∙◌, Bool, true, false, not, inl, inr, Option, none,
  some, arith, Result, ok, err, ◌>>=◌, ◌>>◌, >>=-eq-ok, map_err, map_err-eq-ok, ok_inj, err-ne-ok,
  str_eq, eq_iff, if◌then◌else◌, Option-cases, guard, leb,
}
use fqdn_forge.BTreeMap.{BTreeMap, get, insert, remove, contains_key, get-remove}
use fqdn_forge.Model.Values.{DateTime}
use fqdn_forge.Plan.Definition.{ExperimentPlan}
use fqdn_forge.Plan.Validation.{PlanTools}
use fqdn_forge.Plan.Canonical.{canonicalize_plan}
use fqdn_forge.Plan.Accepted.{IsCanonical, SamePlan, canonicalize_plan-IsCanonical}
use fqdn_forge.Plan.Promise.{
  IsStored, remove-AllCanonical, remove-OnDisk, with_plan, with_plan-IsStored,
}
use fqdn_forge.Plan.Store.{
  PlanStore, PlanIo, max_plan_bytes, format_plan_issues, canonical, commit, plan_file,
  write_plan_file, save, add_new, create, import, found, revised, as_archived, check_revision,
  try_import, try_update, try_archive, update_if_revision, archive, remove_file, after_removal,
  not_found, delete,
}

-- What one operation leaves of a store, whatever the file system answers.
pub data Step (x : PlanTools) (s : PlanStore) : PlanStore → Type 0 where
  created : (io : PlanIo) (plan : ExperimentPlan) → Step x s (create x io plan s).1
  imported : (io : PlanIo) (plan : ExperimentPlan) → Step x s (import x io plan s).1
  updated :
      (io : PlanIo) (now : DateTime) (plan_id : String) (plan : ExperimentPlan)
      (expected : Option ℕ)
      → Step x s (update_if_revision x io now plan_id plan expected s).1
  archived :
      (io : PlanIo) (now : DateTime) (plan_id : String) → Step x s (archive x io now plan_id s).1
  deleted : (io : PlanIo) (plan_id : String) → Step x s (delete io plan_id s).1

write_plan_file-eq-ok :
    (x : PlanTools) (io : PlanIo) (p : ExperimentPlan) (files files' : BTreeMap String)
    → write_plan_file x io p files ≡ ok files'
    → (text : String) × (x.to_vec_pretty p ≡ ok text) × (files' ≡ insert p.plan_id text files)
unfolding write_plan_file
write_plan_file-eq-ok x io p files files' h =
    let (u, a, h1) = >>=-eq-ok (plan_file p.plan_id) _ h in
    let (bytes, b, h2) = >>=-eq-ok (x.to_vec_pretty p) _ h1 in
    let (v, c, h3) = >>=-eq-ok (guard (leb (len bytes) max_plan_bytes) _) _ h2 in
    let (w, d, h4) = >>=-eq-ok io.written _ h3 in
    let (z, e, h5) = >>=-eq-ok io.renamed _ h4 in (bytes, b, sym (ok_inj h5))

pub save-eq-ok :
    (x : PlanTools) (io : PlanIo) (plan_id : String) (c : ExperimentPlan) (s s' : PlanStore)
    (a : ExperimentPlan)
    → c.plan_id ≡ plan_id
    → save x io plan_id c s ≡ ok (a, s')
    → (a ≡ c) × (text : String) × (x.to_vec_pretty c ≡ ok text) × (s' ≡ with_plan c text s)
unfolding save
save-eq-ok x io plan_id c s s' a name h =
    let (files, w, h1) = >>=-eq-ok (write_plan_file x io c s.files) _ h in
    let whole = ok_inj h1 in
    let (text, shown, files_eq) = write_plan_file-eq-ok x io c s.files files w in
    (
      sym (ap (λ r. r.0) whole),
      text,
      shown,
      sym (ap (λ r. r.1) whole)
          ∙ ap₂ (λ k f. record { plans = insert k c s.plans; files = f }) (sym name) files_eq,
    )

save-IsStored :
    (x : PlanTools) (io : PlanIo) (plan_id : String) (c : ExperimentPlan) (s : PlanStore)
    (r : ExperimentPlan × PlanStore)
    → c.plan_id ≡ plan_id
    → IsCanonical x c
    → IsStored x s
    → save x io plan_id c s ≡ ok r
    → IsStored x r.1
save-IsStored x io plan_id c s (a, s') name canon st h =
    let (same, text, shown, store) = save-eq-ok x io plan_id c s s' a name h in
    subst (IsStored x) (sym store) (with_plan-IsStored x c text s shown canon st)

-- An operation keeps the invariant if it does where it succeeds.
commit-IsStored :
    (x : PlanTools) {A : Type 0} (s : PlanStore) (m : Result String (A × PlanStore))
    → IsStored x s
    → ((r : A × PlanStore) → m ≡ ok r → IsStored x r.1)
    → IsStored x (commit s m).1
commit-IsStored x s (ok (a, s')) st f = f (a, s') refl
commit-IsStored x s (err e) st f = st

pub canonical-eq-ok :
    (x : PlanTools) (plan c : ExperimentPlan)
    → canonical x plan ≡ ok c
    → IsCanonical x c × SamePlan plan c
unfolding canonical
canonical-eq-ok x plan c h =
    let (canon, same, vetted) =
      canonicalize_plan-IsCanonical x plan c false (map_err-eq-ok format_plan_issues _ h) in
    (canon, same)

add_new-IsStored :
    (x : PlanTools) (io : PlanIo) (c : ExperimentPlan) (s : PlanStore)
    (r : ExperimentPlan × PlanStore)
    → IsCanonical x c
    → IsStored x s
    → add_new x io s c ≡ ok r
    → IsStored x r.1
unfolding add_new
add_new-IsStored x io c s r canon st h =
    let (u, g, h1) = >>=-eq-ok (guard (not (contains_key c.plan_id s.plans)) _) _ h in
    save-IsStored x io c.plan_id c s r refl canon st h1

create-IsStored :
    (x : PlanTools) (io : PlanIo) (plan : ExperimentPlan) (s : PlanStore)
    → IsStored x s
    → IsStored x (create x io plan s).1
unfolding create
create-IsStored x io plan s st =
    commit-IsStored x s (canonical x plan >>= add_new x io s) st (λ r h.
      let (c, e, h1) = >>=-eq-ok (canonical x plan) _ h in
      add_new-IsStored x io c s r (canonical-eq-ok x plan c e).0 st h1)

import-IsStored :
    (x : PlanTools) (io : PlanIo) (plan : ExperimentPlan) (s : PlanStore)
    → IsStored x s
    → IsStored x (import x io plan s).1
unfolding import try_import
import-IsStored x io plan s st = commit-IsStored x s (try_import x io plan s) st (λ r h.
    let (c, e, h1) = >>=-eq-ok (map_err format_plan_issues (canonicalize_plan x plan true)) _ h in
    add_new-IsStored x io c s r
      (canonicalize_plan-IsCanonical x plan c true (map_err-eq-ok format_plan_issues _ e)).0 st h1)

-- A plan that is canonicalized and saved under the identifier it had.
resaved-IsStored :
    (x : PlanTools) (io : PlanIo) (plan_id : String) (plan : ExperimentPlan) (s : PlanStore)
    (r : ExperimentPlan × PlanStore)
    → plan.plan_id ≡ plan_id
    → IsStored x s
    → (canonical x plan >>= λ c. save x io plan_id c s) ≡ ok r
    → IsStored x r.1
resaved-IsStored x io plan_id plan s r name st h =
    let (c, e, h1) = >>=-eq-ok (canonical x plan) _ h in
    let (canon, same) = canonical-eq-ok x plan c e in
    save-IsStored x io plan_id c s r (same.identifier ∙ name) canon st h1

pub found-eq-ok :
    (k : String) (o : Option ExperimentPlan) (p : ExperimentPlan) → found k o ≡ ok p → o ≡ some p
found-eq-ok k none p h = absurd (err-ne-ok h)
found-eq-ok k (some q) p h = ap some (ok_inj h)

update_if_revision-IsStored :
    (x : PlanTools) (io : PlanIo) (now : DateTime) (plan_id : String) (plan : ExperimentPlan)
    (expected : Option ℕ) (s : PlanStore)
    → IsStored x s
    → IsStored x (update_if_revision x io now plan_id plan expected s).1
unfolding update_if_revision try_update revised
update_if_revision-IsStored x io now plan_id plan expected s st =
    commit-IsStored x s (try_update x io now plan_id plan expected s) st (λ r h.
      let (prior, e, h1) = >>=-eq-ok (found plan_id (get plan_id s.plans)) _ h in
      let (u, c, h2) = >>=-eq-ok (check_revision plan_id expected prior.revision) _ h1 in
      resaved-IsStored x io plan_id (revised plan_id prior now plan) s r refl st h2)

archive-IsStored :
    (x : PlanTools) (io : PlanIo) (now : DateTime) (plan_id : String) (s : PlanStore)
    → IsStored x s
    → IsStored x (archive x io now plan_id s).1
unfolding archive try_archive as_archived
archive-IsStored x io now plan_id s st =
    commit-IsStored x s (try_archive x io now plan_id s) st (λ r h.
      let (prior, e, h1) = >>=-eq-ok (found plan_id (get plan_id s.plans)) _ h in
      let there = found-eq-ok plan_id (get plan_id s.plans) prior e in
      resaved-IsStored x io plan_id (as_archived now prior) s r (st.plans plan_id prior there).0 st
        h1)

pub remove_file-get :
    (io : PlanIo) (plan_id k : String) (files files' : BTreeMap String)
    → remove_file io plan_id files ≡ ok files'
    → get k files' ≡ (if str_eq plan_id k then none else get k files)
unfolding remove_file
remove_file-get io plan_id k files files' h = elim (Option-cases (get plan_id files)) [
  | inl e ↦
      let same : files ≡ files' = ground (arith, e, h) in ground (arith, eq_iff plan_id k, e, same)
  | inr (p, e) ↦
      let m : (io.removed >> ok (remove plan_id files)) ≡ ok files' = ground (arith, e, h) in
      let (u, r, done) = >>=-eq-ok io.removed _ m in
      subst (λ f. get k f ≡ (if str_eq plan_id k then none else get k files)) (ok_inj done)
        (get-remove plan_id k files)
]

-- The removal of the plan from memory, with its file removed or not.
removed-IsStored :
    (x : PlanTools) (io : PlanIo) (plan_id : String) (s : PlanStore)
    (m : Result String (BTreeMap String))
    → IsStored x s
    → ((files : BTreeMap String)
        → m ≡ ok files
        → (k : String) → get k files ≡ (if str_eq plan_id k then none else get k s.files))
    → IsStored x (after_removal (record s { plans = remove plan_id s.plans }) m).1
removed-IsStored x io plan_id s (ok files) st f = record {
  plans = remove-AllCanonical x plan_id s.plans st.plans;
  on_disk =
      remove-OnDisk x plan_id s.plans s.files files
        (λ k other. ground (arith, f files refl k, other)) st.on_disk;
}
removed-IsStored x io plan_id s (err e) st f = record {
  plans = remove-AllCanonical x plan_id s.plans st.plans;
  on_disk = remove-OnDisk x plan_id s.plans s.files s.files (λ k other. refl) st.on_disk;
}

delete-IsStored :
    (x : PlanTools) (io : PlanIo) (plan_id : String) (s : PlanStore)
    → IsStored x s
    → IsStored x (delete io plan_id s).1
unfolding delete
delete-IsStored x io plan_id s st = by_case (contains_key plan_id s.plans)
  where
    done :
        IsStored x
          (after_removal
            (record s { plans = remove plan_id s.plans })
            (plan_file plan_id >> remove_file io plan_id s.files)).1
    done =
        removed-IsStored x io plan_id s (plan_file plan_id >> remove_file io plan_id s.files) st
          (λ files h k.
            let (u, e, h1) = >>=-eq-ok (plan_file plan_id) _ h in
            remove_file-get io plan_id k s.files files h1)

    by_case :
        (b : Bool)
        → IsStored x
            (if b
              then after_removal
                  (record s { plans = remove plan_id s.plans })
                  (plan_file plan_id >> remove_file io plan_id s.files)
              else (err (not_found plan_id), s)).1
    by_case true = done
    by_case false = st

-- Every operation of the plan store keeps these: each plan in memory is canonical and stands under
-- its own identifier, and its file has a text of it. This holds whatever the file system and the JSON
-- printer answer, and where the operation fails.
pub Step-IsStored : (x : PlanTools) (s s' : PlanStore) → Step x s s' → IsStored x s → IsStored x s'
Step-IsStored x s _ (Step.created io plan) st = create-IsStored x io plan s st
Step-IsStored x s _ (Step.imported io plan) st = import-IsStored x io plan s st
Step-IsStored x s _ (Step.updated io now plan_id plan expected) st =
    update_if_revision-IsStored x io now plan_id plan expected s st
Step-IsStored x s _ (Step.archived io now plan_id) st = archive-IsStored x io now plan_id s st
Step-IsStored x s _ (Step.deleted io plan_id) st = delete-IsStored x io plan_id s st
