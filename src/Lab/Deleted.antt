-- ===== src/Lab/Deleted.antt =====
-- The deletion of a plan, in its store and for its runs.
use fqdn_forge.Base.{
  String, ◌≡◌, refl, sym, ap, ap₂, subst, ◌∙◌, ◌⊎◌, inl, inr, Bool, true, false, false≢true, Option,
  none, some, List, [], ◌∷◌, arith, Result, ok, err, In, keep, str_eq, eq_iff, is_some_and,
  Bool-cases, of_some, err-ne-ok,
}
use fqdn_forge.BTreeMap.{BTreeMap, get, keys, get-set}
use fqdn_forge.Plan.Run.{PlanRun}
use fqdn_forge.Plan.Store.{PlanStore, PlanIo, delete}
use fqdn_forge.Lab.State.{PlanRunRuntime, MutableLabState}
use fqdn_forge.Lab.Invalidation.{
  close_runtime, close_run, is_affected, invalidate_one, invalidate_each, invalidate_plan_runtimes,
}
use fqdn_forge.Plan.Revisions.{delete-eq-ok}
use fqdn_forge.Lab.PlanShell.{PlanLab, after_delete, delete_plan}

-- No runtime of the run is active.
abbrev pub Closed : String → MutableLabState → Type 0
Closed k s =
    (runtime : PlanRunRuntime) → get k s.plan_runtimes ≡ some runtime → runtime.active ≡ false

close_run-runtimes :
    (reason j : String) (o : Option PlanRun) (s : MutableLabState)
    → (close_run reason j o s).plan_runtimes ≡ s.plan_runtimes
unfolding close_run
close_run-runtimes reason j none s = refl
close_run-runtimes reason j (some run) s = refl

close_runtime-Closed :
    (k j : String) (o : Option PlanRunRuntime) (s : MutableLabState)
    → get j s.plan_runtimes ≡ o
    → (str_eq j k ≡ true) ⊎ Closed k s
    → Closed k (close_runtime j o s)
close_runtime-Closed k j none s e (inl same) runtime g = ground (arith, e, g, eq_iff j k, same)
close_runtime-Closed k j none s e (inr closed) runtime g = closed runtime g
close_runtime-Closed k j (some old) s e h runtime g =
    let after = get-set j k (record old { active = false }) old s.plan_runtimes e in
    elim (Bool-cases (str_eq j k)) [
      | inl same ↦
          let new : some (record old { active = false }) ≡ some runtime =
            ground (arith, after, g, same) in
          ap (λ r. r.active) (sym (of_some new))
      | inr other ↦ elim h [
        | inl same ↦ absurd (false≢true (sym other ∙ same))
        | inr closed ↦ closed runtime (ground (arith, after, g, other))
      ]
    ]

invalidate_one-Closed :
    (reason k j : String) (s : MutableLabState)
    → (str_eq j k ≡ true) ⊎ Closed k s
    → Closed k (invalidate_one reason j s)
unfolding invalidate_one
invalidate_one-Closed reason k j s h =
    let mid = close_runtime j (get j s.plan_runtimes) s in
    λ runtime g.
      close_runtime-Closed k j (get j s.plan_runtimes) s refl h runtime
        (ap (get k) (sym (close_run-runtimes reason j (get j s.plan_runs) mid)) ∙ g)

invalidate_each-Closed :
    (reason k : String) (ids : List String) (s : MutableLabState)
    → In k ids ⊎ Closed k s
    → Closed k (invalidate_each reason ids s)
unfolding invalidate_each
invalidate_each-Closed reason k [] s (inl m) = absurd m
invalidate_each-Closed reason k [] s (inr h) = h
invalidate_each-Closed reason k (j ∷ rest) s (inl (inl e)) =
    invalidate_each-Closed reason k rest (invalidate_one reason j s)
      (inr (invalidate_one-Closed reason k j s (inl ((eq_iff j k).1 e))))
invalidate_each-Closed reason k (j ∷ rest) s (inl (inr m)) =
    invalidate_each-Closed reason k rest (invalidate_one reason j s) (inl m)
invalidate_each-Closed reason k (j ∷ rest) s (inr h) =
    invalidate_each-Closed reason k rest (invalidate_one reason j s)
      (inr (invalidate_one-Closed reason k j s (inr h)))

-- The key of an entry that passes a test is among the kept keys.
In-keep :
    (p : String × PlanRun → Bool) (k : String) (run : PlanRun) (m : BTreeMap PlanRun)
    → get k m ≡ some run
    → p (k, run) ≡ true
    → In k (keys (keep p m))
unfolding get
In-keep p k run [] g h = cc
In-keep p k run ((j, v) ∷ m) g h = elim (Bool-cases (str_eq j k)) [
  | inl e ↦
      let same_run : v ≡ run = ground (arith, e, g) in
      let same_key = (eq_iff j k).0 e in
      let passes : p (j, v) ≡ true = ap₂ (λ i r. p (i, r)) same_key same_run ∙ h in
      rw passes (inl same_key)
  | inr e ↦ elim (Bool-cases (p (j, v))) [
    | inl f ↦ rw f (inr (In-keep p k run m (ground (arith, e, g)) h))
    | inr f ↦ rw f (In-keep p k run m (ground (arith, e, g)) h)
  ]
]

invalidate_plan_runtimes-Closed :
    (plan_id reason k : String) (run : PlanRun) (s : MutableLabState)
    → get k s.plan_runs ≡ some run
    → run.manifest.plan_id ≡ plan_id
    → Closed k (invalidate_plan_runtimes plan_id reason s)
unfolding invalidate_plan_runtimes is_affected
invalidate_plan_runtimes-Closed plan_id reason k run s there owner =
    invalidate_each-Closed reason k (keys (keep (is_affected plan_id s) s.plan_runs)) s
      (elim (Bool-cases (is_some_and (get k s.plan_runtimes) (λ r. r.active))) [
        | inl e ↦ inl (
            In-keep (is_affected plan_id s) k run s.plan_runs there
              (rw ((eq_iff run.manifest.plan_id plan_id).1 owner, e) refl))
        | inr e ↦ inr (λ runtime g. subst (λ o. is_some_and o (λ r. r.active) ≡ false) g e)
      ])

-- A deletion that succeeds, of a plan that has runs: the plan is in the store no more, neither in
-- memory nor as a file, and no capability of a run of it is active.
pub delete_plan-eq-ok :
    (io : PlanIo) (saved : Result String Unit) (plan_id k : String) (run : PlanRun) (l l' : PlanLab)
    (u : Unit)
    → get k l.inner.plan_runs ≡ some run
    → run.manifest.plan_id ≡ plan_id
    → delete_plan io saved plan_id l ≡ (ok u, l')
    → (get plan_id l'.store.plans ≡ none) × (get plan_id l'.store.files ≡ none) × Closed k l'.inner
unfolding delete_plan
delete_plan-eq-ok io saved plan_id k run l l' u there owner h =
    ended (delete io plan_id l.store) refl h
  where
    ended :
        (d : Result String Unit × PlanStore)
        → delete io plan_id l.store ≡ d
        → after_delete plan_id saved d l ≡ (ok u, l')
        → (get plan_id l'.store.plans ≡ none)
          × (get plan_id l'.store.files ≡ none)
          × Closed k l'.inner
    ended (err e, store) g h = absurd (err-ne-ok (ap (λ r. r.0) h))
    ended (ok v, store) g h =
        let parts = delete-eq-ok io plan_id l.store store v g in
        let left = ap (λ r. r.1) h in
        subst
          (λ t.
            (get plan_id t.store.plans ≡ none)
            × (get plan_id t.store.files ≡ none)
            × Closed k t.inner)
          left
          (
            parts.0,
            parts.1,
            invalidate_plan_runtimes-Closed plan_id "plan definition deleted" k run l.inner there
                owner,
          )
