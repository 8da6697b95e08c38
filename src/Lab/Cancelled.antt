-- ===== src/Lab/Cancelled.antt =====
-- After the cancellation of a plan run nothing is let through for it any more.
use fqdn_forge.Base.{
  String, ◌≡◌, ◌≢◌, refl, ◌∙◌, Bool, true, false, Option, none, some, List, [], ◌∷◌, arith, All,
  any, keep, eq_iff, eq_refl, str_eq, Option-cases, inl, inr, if◌then◌else◌,
}
use fqdn_forge.BTreeMap.{get, get-set, get-insert, keys}
use fqdn_forge.Model.Values.{DateTime}
use fqdn_forge.Plan.Settings.{PlanFault}
use fqdn_forge.Plan.Run.{PlanRun, PlanRequestAuditStep}
use fqdn_forge.Lab.State.{PlanRunRuntime, MutableLabState}
use fqdn_forge.Lab.Exec.{Result, ok, err}
use fqdn_forge.Lab.Capability.{
  in_runtime, write_runtime, access_runtime, plan_run_access, authorize_runtime,
  authorize_plan_source, capability_over,
}
use fqdn_forge.Lab.Faults.{consume_fault, consume_plan_fault}
use fqdn_forge.Lab.PlanRuns.{
  new_runtime, register_saved, register_plan_run, cancel_found, cancel_runtime, cancel_plan_run,
  record_found, record_plan_source_request,
}
use fqdn_forge.Lab.Invalidation.{
  close_runtime, close_run, is_affected, invalidate_one, invalidate_each, invalidate_plan_runtimes,
}
use fqdn_forge.Lab.Revoked.{
  PlanOperation, registers, accesses, authorizes, consumes, records, cancels, invalidates,
  after_plan, after_plans, Spares, Revoked, write-Revoked, in_runtime-Revoked, access-KeepsClosed,
  access_closed, authorize-KeepsClosed, authorize_closed, consume-KeepsClosed, consume_closed,
}

module _ (k : String) where
  if-Revoked :
      {A : Type 0} (b : Bool) (x y : A × MutableLabState)
      → Revoked k x.1
      → Revoked k y.1
      → Revoked k (if b then x else y).1
  if-Revoked true x y hx hy = hx
  if-Revoked false x y hx hy = hy

  register_saved-Revoked :
      (run : PlanRun) (new : PlanRunRuntime) (saved : Result String Unit) (s : MutableLabState)
      → run.manifest.run_id ≢ k
      → Revoked k s
      → Revoked k (register_saved run new saved s).1
  unfolding register_saved
  register_saved-Revoked run new (err e) s other h = h
  register_saved-Revoked run new (ok _) s other (runtime, e, closed) =
      let found = get-insert run.manifest.run_id k new s.plan_runtimes in
      (runtime, ground (arith, eq_iff run.manifest.run_id k, other, e, found), closed)

  cancel_found-Revoked :
      (j : String) (run : Option PlanRun) (s : MutableLabState)
      → Revoked k s
      → Revoked k (cancel_found j run s).1
  unfolding cancel_found
  cancel_found-Revoked j none s revoked = revoked
  cancel_found-Revoked j (some run) s revoked = revoked

  cancel-Revoked :
      (j : String) (s : MutableLabState) → Revoked k s → Revoked k (cancel_plan_run j s).1
  unfolding cancel_plan_run
  cancel-Revoked j s revoked = elim (Option-cases (get j s.plan_runtimes)) [
    | inl e ↦ rw e (unfold cancel_runtime in revoked)
    | inr (runtime, e) ↦ rw e (
        unfold cancel_runtime in
        cancel_found-Revoked j (get j s.plan_runs)
          (write_runtime j (record runtime { active = false }) s)
          (write-Revoked j k s runtime (record runtime { active = false }) e (λ _. refl) revoked))
  ]

  record_found-Revoked :
      (j source_id : String) (step : PlanRequestAuditStep) (run : Option PlanRun)
      (s : MutableLabState)
      → Revoked k s
      → Revoked k (record_found j source_id step run s).1
  unfolding record_found
  record_found-Revoked j source_id step none s revoked = revoked
  record_found-Revoked j source_id step (some run) s revoked =
      if-Revoked (any (λ entry. str_eq entry.source_id source_id) run.audit) _ _ revoked revoked

  close_runtime-Revoked :
      (j : String) (o : Option PlanRunRuntime) (s : MutableLabState)
      → get j s.plan_runtimes ≡ o
      → Revoked k s
      → Revoked k (close_runtime j o s)
  close_runtime-Revoked j none s e revoked = revoked
  close_runtime-Revoked j (some runtime) s e revoked =
      write-Revoked j k s runtime (record runtime { active = false }) e (λ _. refl) revoked

  close_run-Revoked :
      (reason j : String) (o : Option PlanRun) (s : MutableLabState)
      → Revoked k s
      → Revoked k (close_run reason j o s)
  unfolding close_run
  close_run-Revoked reason j none s revoked = revoked
  close_run-Revoked reason j (some run) s revoked = revoked

  invalidate-Revoked :
      (reason : String) (ids : List String) (s : MutableLabState)
      → Revoked k s
      → Revoked k (invalidate_each reason ids s)
  unfolding invalidate_each invalidate_one
  invalidate-Revoked reason [] s revoked = revoked
  invalidate-Revoked reason (j ∷ rest) s revoked =
      let closed = close_runtime j (get j s.plan_runtimes) s in
      invalidate-Revoked reason rest (invalidate_one reason j s) (
        close_run-Revoked reason j (get j s.plan_runs) closed
          (close_runtime-Revoked j (get j s.plan_runtimes) s refl revoked))

  after_plan-Revoked :
      (o : PlanOperation) (s : MutableLabState)
      → Spares k o
      → Revoked k s
      → Revoked k (after_plan o s)
  unfolding after_plan register_plan_run plan_run_access authorize_plan_source consume_plan_fault
      record_plan_source_request invalidate_plan_runtimes
  after_plan-Revoked (registers r run now) s spares h =
      register_saved-Revoked run (new_runtime r run now) r.saved s spares h
  after_plan-Revoked (accesses j now) s _ h =
      in_runtime-Revoked j k (access_runtime j now) s (access-KeepsClosed j now) h
  after_plan-Revoked (authorizes j source_id capability now) s _ h =
      let run = get j s.plan_runs in
      in_runtime-Revoked j k (authorize_runtime j source_id capability now run) s
        (authorize-KeepsClosed j source_id capability now run) h
  after_plan-Revoked (consumes j source_id fault now) s _ h =
      in_runtime-Revoked j k (consume_fault source_id fault now) s
        (consume-KeepsClosed source_id fault now) h
  after_plan-Revoked (records j source_id step) s _ h =
      record_found-Revoked j source_id step (get j s.plan_runs) s h
  after_plan-Revoked (cancels j) s _ h = cancel-Revoked j s h
  after_plan-Revoked (invalidates plan_id reason) s _ h =
      invalidate-Revoked reason (keys (keep (is_affected plan_id s) s.plan_runs)) s h

  after_plans-Revoked :
      (os : List PlanOperation) (s : MutableLabState)
      → All (Spares k) os
      → Revoked k s
      → Revoked k (after_plans os s)
  unfolding after_plans
  after_plans-Revoked [] s spares h = h
  after_plans-Revoked (o ∷ os) s spares h =
      after_plans-Revoked os (after_plan o s) spares.1 (after_plan-Revoked o s spares.0 h)

  -- Every use of the capability of the run is refused, whatever is presented and at any time.
  abbrev pub Refuses : MutableLabState → Type 0
  Refuses s =
      ((now : DateTime) → (plan_run_access k now s).0 ≡ err capability_over)
      × ((source_id : String) (capability : Option String) (now : DateTime)
          → (authorize_plan_source k source_id capability now s).0 ≡ err capability_over)
      × ((source_id : String) (fault : PlanFault) (now : DateTime)
          → (consume_plan_fault k source_id fault now s).0 ≡ err capability_over)

  Revoked-Refuses : (s : MutableLabState) → Revoked k s → Refuses s
  unfolding plan_run_access authorize_plan_source consume_plan_fault in_runtime
  Revoked-Refuses s (runtime, e, closed) = (
    (λ now. rw e (access_closed k now runtime closed)),
    (λ source_id capability now.
        rw e (authorize_closed k source_id capability now (get k s.plan_runs) runtime closed)),
    (λ source_id fault now. rw e (consume_closed source_id fault now runtime closed)),
  )

  -- The cancellation of a run that has a capability closes it, also where the run itself is not found.
  cancelled-Revoked :
      (s : MutableLabState) (runtime : PlanRunRuntime)
      → get k s.plan_runtimes ≡ some runtime
      → Revoked k (cancel_plan_run k s).1
  unfolding cancel_plan_run cancel_runtime
  cancelled-Revoked s runtime e =
      let closed = record runtime { active = false } in
      let written = get-set k k closed runtime s.plan_runtimes e in
      rw e (
        cancel_found-Revoked k (get k s.plan_runs) (write_runtime k closed s)
          (closed, (written ∙ rw (eq_refl k) refl), refl))

-- A run that has a capability is cancelled: whatever plan operations follow, other than a
-- registration under the same identifier, no access is given, no source request authorized and no
-- fault consumed for it, at any reading of the clock.
pub cancelled-Refuses :
    (k : String) (s : MutableLabState) (runtime : PlanRunRuntime) (os : List PlanOperation)
    → get k s.plan_runtimes ≡ some runtime
    → All (Spares k) os
    → Refuses k (after_plans os (cancel_plan_run k s).1)
cancelled-Refuses k s runtime os e spares =
    let cancelled = (cancel_plan_run k s).1 in
    Revoked-Refuses k (after_plans os cancelled)
      (after_plans-Revoked k os cancelled spares (cancelled-Revoked k s runtime e))
