-- ===== src/Lab/Revoked.antt =====
-- A capability that was cancelled, or was seen at its end, stays closed.
use fqdn_forge.Base.{
  String, ◌≡◌, ◌≢◌, refl, sym, ap, ◌∙◌, false, Option, some, List, [], ◌∷◌, arith, eq_iff, str_eq,
  Bool-cases, Option-cases, inl, inr, of_some,
}
use fqdn_forge.BTreeMap.{get, get-set}
use fqdn_forge.Model.Values.{DateTime}
use fqdn_forge.Plan.Settings.{PlanFault}
use fqdn_forge.Plan.Run.{PlanRun, PlanRequestAuditStep}
use fqdn_forge.Lab.State.{PlanRunRuntime, MutableLabState}
use fqdn_forge.Lab.Exec.{err}
use fqdn_forge.Lab.Capability.{
  OnRuntime, in_runtime, write_runtime, expire, access_runtime, plan_run_access, authorize_runtime,
  authorize_plan_source, capability_over,
}
use fqdn_forge.Lab.Faults.{consume_fault, consume_plan_fault}
use fqdn_forge.Lab.PlanRuns.{
  Registration, register_plan_run, cancel_plan_run, record_plan_source_request,
}
use fqdn_forge.Lab.Invalidation.{invalidate_plan_runtimes}

-- The operations on plan runs.
pub data PlanOperation : Type 0 where
  registers : Registration → PlanRun → DateTime → PlanOperation
  accesses : String → DateTime → PlanOperation
  authorizes : String → String → Option String → DateTime → PlanOperation
  consumes : String → String → PlanFault → DateTime → PlanOperation
  records : String → String → PlanRequestAuditStep → PlanOperation
  cancels : String → PlanOperation
  invalidates : String → String → PlanOperation

unfoldable pub after_plan : PlanOperation → MutableLabState → MutableLabState
unfolding register_plan_run plan_run_access authorize_plan_source consume_plan_fault
    record_plan_source_request cancel_plan_run invalidate_plan_runtimes
after_plan (registers r run now) s = (register_plan_run r run now s).1
after_plan (accesses run_id now) s = (plan_run_access run_id now s).1
after_plan (authorizes run_id source_id capability now) s =
    (authorize_plan_source run_id source_id capability now s).1
after_plan (consumes run_id source_id fault now) s =
    (consume_plan_fault run_id source_id fault now s).1
after_plan (records run_id source_id step) s =
    (record_plan_source_request run_id source_id step s).1
after_plan (cancels run_id) s = (cancel_plan_run run_id s).1
after_plan (invalidates plan_id reason) s = invalidate_plan_runtimes plan_id reason s

unfoldable pub after_plans : List PlanOperation → MutableLabState → MutableLabState
unfolding after_plan
after_plans [] s = s
after_plans (o ∷ rest) s = after_plans rest (after_plan o s)

-- The operation registers no run under this identifier, which `Uuid::new_v4` draws once.
abbrev pub Spares : String → PlanOperation → Type 0
Spares k (registers r run now) = run.manifest.run_id ≢ k
Spares k _ = Unit

abbrev pub Revoked : String → MutableLabState → Type 0
Revoked k s =
    (runtime : PlanRunRuntime) × (get k s.plan_runtimes ≡ some runtime) × (runtime.active ≡ false)

abbrev pub KeepsClosed : {A : Type 0} → OnRuntime A → Type 0
KeepsClosed body =
    (runtime : PlanRunRuntime) → runtime.active ≡ false → (body runtime).1.active ≡ false

-- A write of a runtime leaves a closed one closed.
pub write-Revoked :
    (j k : String) (s : MutableLabState) (old new : PlanRunRuntime)
    → get j s.plan_runtimes ≡ some old
    → (old.active ≡ false → new.active ≡ false)
    → Revoked k s
    → Revoked k (write_runtime j new s)
write-Revoked j k s old new found keeps (runtime, e, closed) = elim (Bool-cases (str_eq j k)) [
  | inl same ↦
      let same_runtime : old ≡ runtime =
        of_some (sym found ∙ ap (λ i. get i s.plan_runtimes) ((eq_iff j k).0 same) ∙ e) in
      (
        new,
        get-set j k new old s.plan_runtimes found ∙ rw same refl,
        keeps (ap (λ r. r.active) same_runtime ∙ closed),
      )
  | inr other ↦ (runtime, get-set j k new old s.plan_runtimes found ∙ rw other e, closed)
]

pub in_runtime-Revoked :
    {A : Type 0} (j k : String) (body : OnRuntime A) (s : MutableLabState)
    → KeepsClosed body
    → Revoked k s
    → Revoked k (in_runtime j body (get j s.plan_runtimes) s).1
in_runtime-Revoked j k body s keeps revoked = elim (Option-cases (get j s.plan_runtimes)) [
  | inl e ↦ rw e (unfold in_runtime in revoked)
  | inr (runtime, e) ↦
      rw e (
        unfold in_runtime in write-Revoked j k s runtime (body runtime).1 e (keeps runtime) revoked)
]

pub access-KeepsClosed : (k : String) (now : DateTime) → KeepsClosed (access_runtime k now)
unfolding access_runtime expire
access-KeepsClosed k now runtime closed = ground (arith, closed)

pub access_closed :
    (k : String) (now : DateTime) (runtime : PlanRunRuntime)
    → runtime.active ≡ false
    → (access_runtime k now runtime).0 ≡ err capability_over
unfolding access_runtime expire
access_closed k now runtime closed = ground (arith, closed)

module _ (k source_id : String) (capability : Option String) (now : DateTime)
    (run : Option PlanRun) where
  pub authorize-KeepsClosed : KeepsClosed (authorize_runtime k source_id capability now run)
  unfolding authorize_runtime expire
  authorize-KeepsClosed runtime closed = ground (arith, closed)

  pub authorize_closed :
      (runtime : PlanRunRuntime)
      → runtime.active ≡ false
      → (authorize_runtime k source_id capability now run runtime).0 ≡ err capability_over
  unfolding authorize_runtime expire
  authorize_closed runtime closed = ground (arith, closed)

module _ (source_id : String) (fault : PlanFault) (now : DateTime) where
  pub consume-KeepsClosed : KeepsClosed (consume_fault source_id fault now)
  unfolding consume_fault expire
  consume-KeepsClosed runtime closed = ground (arith, closed)

  pub consume_closed :
      (runtime : PlanRunRuntime)
      → runtime.active ≡ false
      → (consume_fault source_id fault now runtime).0 ≡ err capability_over
  unfolding consume_fault expire
  consume_closed runtime closed = ground (arith, closed)
