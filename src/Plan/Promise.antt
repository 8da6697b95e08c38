-- ===== src/Plan/Promise.antt =====
-- What a `PlanStore` promises: canonical plans, each in its file.
use fqdn_forge.Base.{
  String, ◌≡◌, subst, ◌∙◌, true, false, inl, inr, some, arith, ok, str_eq, eq_iff, Bool-cases,
}
use fqdn_forge.BTreeMap.{BTreeMap, get, insert, remove, get-insert, get-remove}
use fqdn_forge.Plan.Definition.{ExperimentPlan}
use fqdn_forge.Plan.Validation.{PlanTools}
use fqdn_forge.Plan.Canonical.{canonicalize_plan}
use fqdn_forge.Plan.Accepted.{IsCanonical}
use fqdn_forge.Plan.Store.{PlanStore}

-- Every entry is a canonical plan, under its own identifier.
abbrev pub AllCanonical : PlanTools → BTreeMap ExperimentPlan → Type 0
AllCanonical x m =
    (k : String) (p : ExperimentPlan) → get k m ≡ some p → (p.plan_id ≡ k) × IsCanonical x p

-- A text that was printed for a plan, or that `open` reads as that plan.
pub data Holds (x : PlanTools) (p : ExperimentPlan) (text : String) : Type 0 where
  printed : x.to_vec_pretty p ≡ ok text → Holds x p text
  parsed :
      (raw : ExperimentPlan)
      → x.from_slice text ≡ ok raw
      → canonicalize_plan x raw true ≡ ok p
      → Holds x p text

-- Every plan in memory has a file of its own name with a text of that plan.
abbrev pub OnDisk : PlanTools → BTreeMap ExperimentPlan → BTreeMap String → Type 0
OnDisk x plans files =
    (k : String) (p : ExperimentPlan)
    → get k plans ≡ some p
    → (text : String) × (get k files ≡ some text) × Holds x p text

-- The plans in memory are canonical, each under its own identifier, and each is in its file.
pub record IsStored (x : PlanTools) (s : PlanStore) : Type 0 where
  pub plans : AllCanonical x s.plans
  pub on_disk : OnDisk x s.plans s.files

pub insert-AllCanonical :
    (x : PlanTools) (p : ExperimentPlan) (m : BTreeMap ExperimentPlan)
    → IsCanonical x p
    → AllCanonical x m
    → AllCanonical x (insert p.plan_id p m)
insert-AllCanonical x p m c h k q g = elim (Bool-cases (str_eq p.plan_id k)) [
  | inl e ↦
      let same : p ≡ q = ground (arith, get-insert p.plan_id k p m, g, e) in
      subst (λ r. (r.plan_id ≡ k) × IsCanonical x r) same ((eq_iff p.plan_id k).0 e, c)
  | inr e ↦ h k q (ground (arith, get-insert p.plan_id k p m, g, e))
]

pub remove-AllCanonical :
    (x : PlanTools) (j : String) (m : BTreeMap ExperimentPlan)
    → AllCanonical x m
    → AllCanonical x (remove j m)
remove-AllCanonical x j m h k q g = h k q (ground (arith, get-remove j k m, g))

pub insert-OnDisk :
    (x : PlanTools) (j text : String) (c : ExperimentPlan) (plans : BTreeMap ExperimentPlan)
    (files : BTreeMap String)
    → Holds x c text
    → OnDisk x plans files
    → OnDisk x (insert j c plans) (insert j text files)
insert-OnDisk x j text c plans files held h k p g = elim (Bool-cases (str_eq j k)) [
  | inl e ↦
      let same : c ≡ p = ground (arith, get-insert j k c plans, g, e) in
      (text, ground (arith, get-insert j k text files, e), subst (λ q. Holds x q text) same held)
  | inr e ↦
      let (t, m, held') = h k p (ground (arith, get-insert j k c plans, g, e)) in
      (t, ground (arith, get-insert j k text files, e, m), held')
]

-- A plan that leaves memory, with its file or without.
pub remove-OnDisk :
    (x : PlanTools) (j : String) (plans : BTreeMap ExperimentPlan) (files files' : BTreeMap String)
    → ((k : String) → (str_eq j k ≡ false) → get k files' ≡ get k files)
    → OnDisk x plans files
    → OnDisk x (remove j plans) files'
remove-OnDisk x j plans files files' kept h k p g =
    let other : str_eq j k ≡ false = ground (arith, get-remove j k plans, g) in
    let (t, m, held) = h k p (ground (arith, get-remove j k plans, g)) in
    (t, kept k other ∙ m, held)

-- The store after the plan was written under its identifier.
abbrev pub with_plan : ExperimentPlan → String → PlanStore → PlanStore
with_plan c text s = record {
  plans = insert c.plan_id c s.plans;
  files = insert c.plan_id text s.files;
}

pub with_plan-IsStored :
    (x : PlanTools) (c : ExperimentPlan) (text : String) (s : PlanStore)
    → x.to_vec_pretty c ≡ ok text
    → IsCanonical x c
    → IsStored x s
    → IsStored x (with_plan c text s)
with_plan-IsStored x c text s shown canon st = record {
  plans = insert-AllCanonical x c s.plans canon st.plans;
  on_disk = insert-OnDisk x c.plan_id text c s.plans s.files (Holds.printed shown) st.on_disk;
}
