-- ===== src/Plan/Audited.antt =====
-- Which sources the simulation of a plan goes through, and what no missing name means.
use fqdn_forge.Base.{
  ℕ, ◌-◌, ◌≤◌, String, ◌≡◌, refl, sym, ap, ◌∙◌, subst, inl, inr, Bool, true, false, List, [], ◌∷◌,
  ◌++◌, map, map-append, arith, if◌then◌else◌, ◌==◌, keep, length, In, All, All-In, Bool-cases,
}
use fqdn_forge.BTreeSet.{collect, contains, contains_iff, contains-collect, collect-In}
use fqdn_forge.Plan.Definition.{PlanSource, ExperimentPlan}
use fqdn_forge.Plan.Execution.{
  Clock, Simulation, PlanTruth, plan_truth, generated, generated_fqdn, enabled_sources, audit_entry,
  simulate_source, simulate_each, simulate_sources, no_simulation, correct_findings,
}

module _ {A : Type 0} where
  append_nil : (xs : List A) → xs ++ [] ≡ xs
  append_nil [] = refl
  append_nil (x ∷ xs) = ap (λ l. x ∷ l) (append_nil xs)

  append_assoc : (xs ys zs : List A) → (xs ++ ys) ++ zs ≡ xs ++ (ys ++ zs)
  append_assoc [] ys zs = refl
  append_assoc (x ∷ xs) ys zs = ap (λ l. x ∷ l) (append_assoc xs ys zs)

  length-keep : (p : A → Bool) (xs : List A) → length (keep p xs) ≤ length xs
  length-keep p [] = omega arith
  length-keep p (x ∷ xs) = elim (Bool-cases (p x)) [
    | inl e ↦ rw e (omega (arith, length-keep p xs))
    | inr e ↦ rw e (omega (arith, length-keep p xs))
  ]

  -- A filter that loses nothing passed everything.
  all_kept :
      (p : A → Bool) (xs : List A) → length xs ≤ length (keep p xs) → All (λ a. p a ≡ true) xs
  all_kept p [] h = tt
  all_kept p (x ∷ xs) h = elim (Bool-cases (p x)) [
    | inl e ↦ (e, all_kept p xs (ground (arith, e, h)))
    | inr e ↦ absurd (ground (arith, e, h, length-keep p xs))
  ]

  In-keep : (p : A → Bool) (xs : List A) (a : A) → In a (keep p xs) → In a xs × (p a ≡ true)
  In-keep p [] a m = absurd m
  In-keep p (x ∷ xs) a m = by_case (In-keep p xs a) (p x) refl m
    where
      by_case :
          (In a (keep p xs) → In a xs × (p a ≡ true))
          → (b : Bool) → p x ≡ b
          → In a (if b then x ∷ keep p xs else keep p xs)
          → In a (x ∷ xs) × (p a ≡ true)
      by_case ih true e (inl same) = (inl same, subst (λ y. p y ≡ true) same e)
      by_case ih true e (inr n) = let (k, t) = ih n in (inr k, t)
      by_case ih false e n = let (k, t) = ih n in (inr k, t)

In-map :
    {A B : Type 0} (f : A → B) (xs : List A) (b : B)
    → In b (map f xs)
    → (a : A) × In a xs × (b ≡ f a)
In-map f [] b m = absurd m
In-map f (x ∷ xs) b (inl e) = (x, inl refl, sym e)
In-map f (x ∷ xs) b (inr m) = let (a, n, e) = In-map f xs b m in (a, inr n, e)

simulate_each-audit :
    (clock : Clock) (plan : ExperimentPlan) (sources : List PlanSource) (s : Simulation)
    → map (λ e. e.source_id) (simulate_each clock plan sources s).audit
      ≡ map (λ e. e.source_id) s.audit ++ map (λ t. t.id) sources
unfolding simulate_each simulate_source audit_entry
simulate_each-audit clock plan [] s = sym (append_nil (map (λ e. e.source_id) s.audit))
simulate_each-audit clock plan (source ∷ rest) s =
    simulate_each-audit clock plan rest (simulate_source clock plan source s)
    ∙ ap (λ l. l ++ map (λ t. t.id) rest) (map-append (λ e. e.source_id) s.audit _)
    ∙ append_assoc (map (λ e. e.source_id) s.audit) (source.id ∷ []) (map (λ t. t.id) rest)

pub simulate_sources-audit :
    (clock : Clock) (plan : ExperimentPlan) (truth : PlanTruth)
    → map (λ e. e.source_id) (simulate_sources clock plan truth).audit
      ≡ map (λ s. s.id) (keep (λ s. s.enabled) plan.sources)
unfolding simulate_sources
simulate_sources-audit clock plan truth =
    simulate_each-audit clock plan (enabled_sources plan) (no_simulation plan)

-- A name that is the first one of an enabled source.
abbrev pub Generated : ExperimentPlan → String → Type 0
Generated plan a =
    (source : PlanSource) × In source plan.sources
    × (source.enabled ≡ true)
    × (a ≡ generated_fqdn plan source 1)

generated-Generated :
    (plan : ExperimentPlan) (a : String) → In a (generated plan) → Generated plan a
generated-Generated plan a m =
    let (source, n, e) =
      In-map (λ source. generated_fqdn plan source 1) (enabled_sources plan) a m in
    let (there, on) = In-keep (λ s. s.enabled) plan.sources source n in (source, there, on, e)

-- No name is missed only if every expected one is generated.
none_missed :
    (plan : ExperimentPlan) (expected : List String) (discovered : ℕ)
    → length (collect expected) - correct_findings expected (generated plan) discovered ≡ 0
    → (a : String) → In a expected
    → Generated plan a
unfolding correct_findings
none_missed plan expected discovered h a m =
    let found = contains (collect (generated plan)) in
    let every = all_kept found (collect expected) (ground (arith, h)) in
    let hit = All-In _ (collect expected) every a ((collect-In expected a).1 m) in
    generated-Generated plan a
      ((contains_iff (generated plan) a).0 (sym (contains-collect (generated plan) a) ∙ hit))

nonempty :
    (a : String) (es other : List String) → In a es → (if length es == 0 then other else es) ≡ es
nonempty a [] other m = absurd m
nonempty a (e ∷ es) other m = ground arith

pub missed-Generated :
    (clock : Clock) (plan : ExperimentPlan)
    → (simulate_sources clock plan (plan_truth plan)).missed ≡ 0
    → (a : String) → In a plan.expected_behaviour.expected_fqdns
    → Generated plan a
unfolding simulate_sources plan_truth
missed-Generated clock plan h a m =
    none_missed plan (plan_truth plan).expected_fqdns
      (simulate_each clock plan (enabled_sources plan) (no_simulation plan)).discovered h a
      (subst (In a) (sym (nonempty a plan.expected_behaviour.expected_fqdns (generated plan) m)) m)
