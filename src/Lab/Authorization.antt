-- ===== src/Lab/Authorization.antt =====
-- When `authorize_plan_source` lets a request through.
use fqdn_forge.Base.{
  is_some_and-str_eq, ◌<◌, String, ◌≡◌, refl, ◌↔◌, Bool, true, false, ◌&&◌, Option, none, some,
  List, [], ◌∷◌, arith, ltb, In, any, find, is_some, In-of_any, any_of_In, eq_iff, str_eq, &&_iff,
  ltb→lt,
}
use fqdn_forge.BTreeMap.{get}
use fqdn_forge.Model.Values.{DateTime}
use fqdn_forge.Plan.Definition.{PlanSource}
use fqdn_forge.Plan.Run.{PlanRun}
use fqdn_forge.Lab.State.{PlanRunRuntime, MutableLabState}
use fqdn_forge.Lab.Exec.{Result, ok, err}
use fqdn_forge.Lab.Capability.{
  in_runtime, expire, is_enabled, presents, reserve_request, authorize_run, authorize_runtime,
  authorize_plan_source,
}

abbrev pub is_ok : {E A : Type 0} → Result E A → Bool
is_ok (ok a) = true
is_ok (err e) = false

is_some-find : {A : Type 0} (p : A → Bool) (xs : List A) → is_some (find p xs) ≡ any p xs
is_some-find p [] = refl
is_some-find p (x ∷ xs) = ground (arith, is_some-find p xs)

all_four :
    (b c d e : Bool)
    → ((b && c && d && e) ≡ true) ↔ ((b ≡ true) × (c ≡ true) × (d ≡ true) × (e ≡ true))
all_four b c d e = ground arith

module _ (source_id : String) (capability : Option String) (now : DateTime) where
  reserved :
      (run : PlanRun) (source : Option PlanSource) (runtime : PlanRunRuntime)
      → is_ok (reserve_request source_id run source runtime).0 ≡ is_some source
  unfolding reserve_request
  reserved run none runtime = refl
  reserved run (some source) runtime = refl

  authorize_test :
      (k : String) (run : PlanRun) (runtime : PlanRunRuntime)
      → is_ok (authorize_runtime k source_id capability now (some run) runtime).0 ≡ (
          ltb now runtime.expires_at
          && runtime.active
          && presents capability runtime
          && any (is_enabled source_id) run.plan_snapshot.sources)
  unfolding authorize_runtime authorize_run expire
  authorize_test k run runtime =
      let source = find (is_enabled source_id) run.plan_snapshot.sources in
      ground (
        arith,
        reserved run source runtime,
        is_some-find (is_enabled source_id) run.plan_snapshot.sources,
      )

  presents_iff :
      (runtime : PlanRunRuntime)
      → (presents capability runtime ≡ true) ↔ (capability ≡ some runtime.source_capability)
  presents_iff runtime = is_some_and-str_eq capability runtime.source_capability

  enabled_iff :
      (sources : List PlanSource)
      → (any (is_enabled source_id) sources ≡ true) ↔ (
          (source : PlanSource) × In source sources
          × (source.id ≡ source_id)
          × (source.enabled ≡ true))
  enabled_iff sources = (
    λ h.
        let (source, m, e) = In-of_any (is_enabled source_id) sources h in
        let (same, on) = (&&_iff (str_eq source.id source_id) source.enabled).0 e in
        (source, m, (eq_iff source.id source_id).0 same, on),
    λ (source, m, same, on). any_of_In (is_enabled source_id) sources source m (
        (&&_iff (str_eq source.id source_id) source.enabled).1
          ((eq_iff source.id source_id).1 same, on)),
  )

-- A source request of a plan run that is present with its runtime is authorized exactly when it
-- comes before the end of the capability, the capability is active and the one presented, and the
-- plan has a source with that identifier that is enabled.
pub authorize_plan_source-is_ok_iff :
    (k source_id : String) (capability : Option String) (now : DateTime) (s : MutableLabState)
    (runtime : PlanRunRuntime) (run : PlanRun)
    → get k s.plan_runtimes ≡ some runtime
    → get k s.plan_runs ≡ some run
    → (is_ok (authorize_plan_source k source_id capability now s).0 ≡ true) ↔ (
        (now < runtime.expires_at)
        × (runtime.active ≡ true)
        × (capability ≡ some runtime.source_capability)
        × ((source : PlanSource) × In source run.plan_snapshot.sources
            × (source.id ≡ source_id)
            × (source.enabled ≡ true)))
unfolding authorize_plan_source in_runtime
authorize_plan_source-is_ok_iff k source_id capability now s runtime run e f =
    let test = authorize_test source_id capability now k run runtime in
    let presented = presents_iff source_id capability now runtime in
    let enabled = enabled_iff source_id capability now run.plan_snapshot.sources in
    let tests =
      all_four (ltb now runtime.expires_at) runtime.active (presents capability runtime)
        (any (is_enabled source_id) run.plan_snapshot.sources) in
    rw (e, f, test)
      (
        λ h.
            let (early, active, same, source) = tests.0 h in
            (ltb→lt now runtime.expires_at early, active, presented.0 same, enabled.0 source),
        λ (early, active, same, source).
            tests.1 (ground (arith, early), active, presented.1 same, enabled.1 source),
      )
