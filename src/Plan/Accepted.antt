-- ===== src/Plan/Accepted.antt =====
-- What `canonicalize_plan` makes of a plan that it accepts.
use fqdn_forge.Base.{
  String, ◌≡◌, ◌≢◌, refl, subst, ◌⊎◌, inl, inr, Bool, true, false, not, List, [], ◌∷◌, arith, ok,
  >>=-eq-ok, map_err, map_err-eq-ok, ok_inj, err-ne-ok, if◌then◌else◌, All, In, str_eq, ends_with,
  before, All-In, All-of_In,
}
use fqdn_forge.Domain.{HostParser, normalize_domain}
use fqdn_forge.Domain.Names.{IsDomainName, normalize_domain-IsDomainName}
use fqdn_forge.Plan.Definition.{PlanStatus, ExperimentPlan}
use fqdn_forge.Plan.Checks.{Issues}
use fqdn_forge.Plan.Soundness.{IsPlan, plan-IsPlan, submitted-Vetted, target_tested}
use fqdn_forge.Plan.Content.{Vetted}
use fqdn_forge.Plan.Validation.{
  PlanTools, plan_schema_version, plan_digest, plan_content, bad_target, validate_plan_fields,
}
use fqdn_forge.Plan.Canonical.{
  insert_sorted, sort, dedup, normalize_names, with_names, shown_status, seal, none_of,
  expected_issue, forbidden_issue, canonicalize_plan,
}

-- A member of a conditional list is a member of one of the two.
In-if :
    {P : Type 0} (a : String) (ls rs : List String) (b : Bool)
    → (In a ls → P)
    → (In a rs → P)
    → In a (if b then ls else rs)
    → P
In-if a ls rs true f g m = f m
In-if a ls rs false f g m = g m

insert_sorted-In : (x a : String) (xs : List String) → In a (insert_sorted x xs) → (x ≡ a) ⊎ In a xs
unfolding insert_sorted
insert_sorted-In x a [] m = m
insert_sorted-In x a (y ∷ ys) m =
    In-if a (y ∷ insert_sorted x ys) (x ∷ y ∷ ys) (before y x) (step (insert_sorted-In x a ys))
      (λ n. n) m
  where
    step :
        (In a (insert_sorted x ys) → (x ≡ a) ⊎ In a ys)
        → In a (y ∷ insert_sorted x ys)
        → (x ≡ a) ⊎ In a (y ∷ ys)
    step ih (inl e) = inr (inl e)
    step ih (inr n) = elim (ih n) [ inl e ↦ inl e | inr k ↦ inr (inr k) ]

sort-In : (a : String) (xs : List String) → In a (sort xs) → In a xs
unfolding sort
sort-In a [] m = m
sort-In a (x ∷ xs) m = elim (insert_sorted-In x a (sort xs) m) [
  | inl e ↦ inl e
  | inr n ↦ inr (sort-In a xs n)
]

dedup-In : (a : String) (xs : List String) → In a (dedup xs) → In a xs
unfolding dedup
dedup-In a [] m = m
dedup-In a (x ∷ []) m = m
dedup-In a (x ∷ y ∷ ys) m =
    In-if a (dedup (y ∷ ys)) (x ∷ dedup (y ∷ ys)) (str_eq x y) (λ n. inr (dedup-In a (y ∷ ys) n))
      (step (dedup-In a (y ∷ ys))) m
  where
    step : (In a (dedup (y ∷ ys)) → In a (y ∷ ys)) → In a (x ∷ dedup (y ∷ ys)) → In a (x ∷ y ∷ ys)
    step ih (inl e) = inl e
    step ih (inr n) = inr (ih n)

normalize_names-All :
    (parse : HostParser) (issues : Issues) (names out : List String)
    → normalize_names parse issues names ≡ ok out
    → All IsDomainName out
unfolding normalize_names
normalize_names-All parse issues [] out h = subst (All IsDomainName) (ok_inj h) tt
normalize_names-All parse issues (name ∷ rest) out h =
    let (n, here, later) = >>=-eq-ok (map_err (λ _. issues) (normalize_domain parse name)) _ h in
    let (ns, there, same) = >>=-eq-ok (normalize_names parse issues rest) _ later in
    subst (All IsDomainName) (ok_inj same) (
      normalize_domain-IsDomainName parse name n (map_err-eq-ok (λ _. issues) _ here),
      normalize_names-All parse issues rest ns there,
    )

pub record IsCanonical (x : PlanTools) (plan : ExperimentPlan) : Type 0 where
  pub content : IsPlan plan
  pub schema : plan.schema_version ≡ plan_schema_version
  pub target : IsDomainName plan.target_domain
  pub synthetic : ends_with plan.target_domain ".test" ≡ true
  pub expected : All IsDomainName plan.expected_behaviour.expected_fqdns
  pub forbidden : All IsDomainName plan.expected_behaviour.forbidden_fqdns
  pub digest : plan.plan_digest ≡ plan_digest x plan
  pub status : plan.status ≢ PlanStatus.invalid

-- What canonicalization leaves as it was.
pub record SamePlan (plan canonical : ExperimentPlan) : Type 0 where
  pub identifier : canonical.plan_id ≡ plan.plan_id
  pub sources : canonical.sources ≡ plan.sources
  pub seed : canonical.seed ≡ plan.seed
  pub revision : canonical.revision ≡ plan.revision
  pub created_at : canonical.created_at ≡ plan.created_at
  pub updated_at : canonical.updated_at ≡ plan.updated_at

none_of-eq-ok : (is : Issues) (u : Unit) → none_of is ≡ ok u → is ≡ []
none_of-eq-ok [] u h = refl
none_of-eq-ok (i ∷ is) u h = absurd (err-ne-ok h)

shown_status-valid : (s : PlanStatus) → shown_status s ≢ PlanStatus.invalid
shown_status-valid PlanStatus.invalid h = cc
shown_status-valid PlanStatus.draft h = cc
shown_status-valid PlanStatus.runnable h = cc
shown_status-valid PlanStatus.archived h = cc

under_test : (d : String) → not (ends_with d ".test") ≡ false → ends_with d ".test" ≡ true
under_test d h = ground (arith, h)

module _ (x : PlanTools) (plan c : ExperimentPlan) (target : String)
    (expected forbidden : List String) (verify : Bool) (fields : validate_plan_fields x plan ≡ [])
    (named : normalize_domain x.parse_host plan.target_domain ≡ ok target)
    (expect : All IsDomainName expected) (forbid : All IsDomainName forbidden)
    (sealed : seal x verify (with_names target expected forbidden plan) ≡ ok c) where
  sorted_names :
      (names : List String) → All IsDomainName names → All IsDomainName (dedup (sort names))
  sorted_names names h =
      All-of_In IsDomainName (dedup (sort names))
        (λ a m. All-In IsDomainName names h a (sort-In a names (dedup-In a (sort names) m)))

  written : c ≡ record (with_names target expected forbidden plan) {
    status = shown_status plan.status;
    plan_digest = plan_digest x (with_names target expected forbidden plan);
  }
  unfolding seal with_names
  written = ground (arith, sealed)

  c-SamePlan : SamePlan plan c
  unfolding with_names
  c-SamePlan = rw written (record {
    identifier = refl;
    sources = refl;
    seed = refl;
    revision = refl;
    created_at = refl;
    updated_at = refl;
  })

  c-IsCanonical : IsCanonical x c
  unfolding with_names plan_digest plan_content
  c-IsCanonical =
      let p = plan-IsPlan x plan fields in
      rw written (record {
        content = record {
          identifier = p.identifier;
          name = p.name;
          description = p.description;
          some_sources = p.some_sources;
          sources = p.sources;
          identifiers = p.identifiers;
          enabled = p.enabled;
          authentication = p.authentication;
          quota = p.quota;
          pagination = p.pagination;
          few_faults = p.few_faults;
          faults = p.faults;
          requests = p.requests;
        };
        schema = refl;
        target = normalize_domain-IsDomainName x.parse_host plan.target_domain target named;
        synthetic =
            under_test target
              (subst (λ r. bad_target r ≡ false) named (target_tested x plan fields));
        expected = sorted_names expected expect;
        forbidden = sorted_names forbidden forbid;
        digest = refl;
        status = shown_status-valid plan.status;
      })

pub canonicalize_plan-IsCanonical :
    (x : PlanTools) (plan c : ExperimentPlan) (verify : Bool)
    → canonicalize_plan x plan verify ≡ ok c
    → IsCanonical x c × SamePlan plan c × Vetted (x.to_json plan)
unfolding canonicalize_plan
canonicalize_plan-IsCanonical x plan c verify h =
    let (u, fields, h1) = >>=-eq-ok (none_of (validate_plan_fields x plan)) _ h in
    let (target, named, h2) =
      >>=-eq-ok (map_err _ (normalize_domain x.parse_host plan.target_domain)) _ h1 in
    let (expected, expect, h3) =
      >>=-eq-ok (normalize_names x.parse_host _ plan.expected_behaviour.expected_fqdns) _ h2 in
    let (forbidden, forbid, sealed) =
      >>=-eq-ok (normalize_names x.parse_host _ plan.expected_behaviour.forbidden_fqdns) _ h3 in
    let clean = none_of-eq-ok _ u fields in
    let name = map_err-eq-ok _ _ named in
    let all_expected =
      normalize_names-All x.parse_host expected_issue plan.expected_behaviour.expected_fqdns
        expected expect in
    let all_forbidden =
      normalize_names-All x.parse_host forbidden_issue plan.expected_behaviour.forbidden_fqdns
        forbidden forbid in
    (
      c-IsCanonical x plan c target expected forbidden verify clean name all_expected all_forbidden
          sealed,
      c-SamePlan x plan c target expected forbidden verify clean name all_expected all_forbidden
          sealed,
      submitted-Vetted x plan clean,
    )
