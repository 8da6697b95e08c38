-- ===== src/Plan/Soundness.antt =====
-- What a plan that `canonicalize_plan` accepts is like.
use Prim.Native.String.{count}
use fqdn_forge.Base.{
  ℕ, ◌≤◌, suc, String, ◌≡◌, refl, sym, subst, inl, inr, true, false, List, [], ◌∷◌, map, arith,
  if◌then◌else◌, All, In, In-of_any, ltb, length, is_empty_text, trim,
}
use fqdn_forge.BTreeSet.{contains, contains_iff}
use fqdn_forge.Domain.{normalize_domain}
use fqdn_forge.Plan.Definition.{PlanSource, ExperimentPlan}
use fqdn_forge.Plan.Checks.{flatten, indexed, safe_identifier}
use fqdn_forge.Plan.Content.{Vetted, Known, json-Vetted, expected-Known}
use fqdn_forge.Plan.Limits.{
  AuthenticationFits, QuotaFits, PaginationFits, FaultFits, SourceFits, append_empty, flatten_empty,
  issue_if_empty, validate_authentication_iff, validate_quota_iff, validate_pagination_iff,
  validate_faults_iff, validate_source_settings_iff,
}
use fqdn_forge.Plan.Validation.{
  PlanTools, max_sources, max_faults_per_source, bad_id, bad_target, source_checks, plan_checks,
  validate_sources, validate_plan_fields,
}

-- No text occurs twice.
abbrev pub Distinct : List String → Type 0
Distinct [] = Unit
Distinct (x ∷ xs) = (In x xs → ⊥) × Distinct xs

-- A source with a safe identifier, few faults, and settings within their limits.
pub record IsSource (s : PlanSource) : Type 0 where
  pub safe : safe_identifier s.id ≡ true
  pub few_faults : length s.faults ≤ max_faults_per_source
  pub settings : SourceFits s

pub record IsPlan (plan : ExperimentPlan) : Type 0 where
  pub identifier : safe_identifier plan.plan_id ≡ true
  pub name : (is_empty_text (trim plan.name) ≡ false) × (count plan.name ≤ 120)
  pub description : count plan.description ≤ 2000
  pub some_sources : (1 ≤ length plan.sources) × (length plan.sources ≤ max_sources)
  pub sources : All IsSource plan.sources
  pub identifiers : Distinct (map (λ s. s.id) plan.sources)
  pub enabled : (s : PlanSource) × In s plan.sources × (s.enabled ≡ true)
  pub authentication : AuthenticationFits plan.authentication
  pub quota : QuotaFits plan.quota
  pub pagination : PaginationFits plan.pagination
  pub few_faults : length plan.faults ≤ max_faults_per_source
  pub faults : All FaultFits plan.faults
  pub requests : Known plan.sources plan.expected_behaviour.expected_requests_per_source

abbrev ids_of : List PlanSource → List String
ids_of = map (λ s. s.id)

module _ (source : PlanSource) (rest : List PlanSource) (ids : List String) (index : ℕ)
    (h : validate_sources ids index (source ∷ rest) ≡ []) where
  checked :
      (flatten (source_checks ids index source) ≡ [])
      × (validate_sources (if bad_id ids source.id then ids else source.id ∷ ids) (suc index) rest
          ≡ [])
  unfolding validate_sources
  checked =
      (append_empty (flatten (source_checks ids index source)) (
          validate_sources (if bad_id ids source.id then ids else source.id ∷ ids) (suc index)
            rest)).0
        h

  good_id : bad_id ids source.id ≡ false
  unfolding source_checks
  good_id =
      (issue_if_empty (bad_id ids source.id) _ _ _).0
        ((flatten_empty (source_checks ids index source)).0 checked.0).0

  source-IsSource : IsSource source
  unfolding source_checks
  source-IsSource =
      let checks = (flatten_empty (source_checks ids index source)).0 checked.0 in
      let few =
        (issue_if_empty (ltb max_faults_per_source (length source.faults)) _ _ _).0 checks.1.0 in
      record {
        safe = ground (arith, good_id);
        few_faults = ground (arith, few);
        settings = (validate_source_settings_iff source (indexed "sources" index)).0 checks.1.1.0;
      }

  rest_validated : validate_sources (source.id ∷ ids) (suc index) rest ≡ []
  rest_validated =
      let seen : (if bad_id ids source.id then ids else source.id ∷ ids) ≡ source.id ∷ ids =
        rw good_id refl in
      subst (λ s. validate_sources s (suc index) rest ≡ []) seen checked.1

sources-IsSource :
    (ss : List PlanSource) (ids : List String) (index : ℕ)
    → validate_sources ids index ss ≡ []
    → All IsSource ss
sources-IsSource [] ids index h = tt
sources-IsSource (s ∷ ss) ids index h = (
  source-IsSource s ss ids index h,
  sources-IsSource ss (s.id ∷ ids) (suc index) (rest_validated s ss ids index h),
)

-- No identifier that was seen comes again.
seen_before :
    (ss : List PlanSource) (ids : List String) (index : ℕ)
    → validate_sources ids index ss ≡ []
    → (a : String) → In a ids
    → In a (ids_of ss)
    → ⊥
seen_before [] ids index h a seen m = m
seen_before (s ∷ ss) ids index h a seen (inl e) =
    let here = (contains_iff ids a).1 seen in
    let fresh = good_id s ss ids index h in
    ground (arith, subst (λ i. contains ids i ≡ true) (sym e) here, fresh)
seen_before (s ∷ ss) ids index h a seen (inr m) =
    seen_before ss (s.id ∷ ids) (suc index) (rest_validated s ss ids index h) a (inr seen) m

ids-Distinct :
    (ss : List PlanSource) (ids : List String) (index : ℕ)
    → validate_sources ids index ss ≡ []
    → Distinct (ids_of ss)
ids-Distinct [] ids index h = tt
ids-Distinct (s ∷ ss) ids index h =
    let later = rest_validated s ss ids index h in
    (
      seen_before ss (s.id ∷ ids) (suc index) later s.id (inl refl),
      ids-Distinct ss (s.id ∷ ids) (suc index) later,
    )

module _ (x : PlanTools) (plan : ExperimentPlan) (h : validate_plan_fields x plan ≡ []) where
  passed : All (λ is. is ≡ []) (plan_checks x plan)
  unfolding validate_plan_fields
  passed = (flatten_empty (plan_checks x plan)).0 h

  pub plan-IsPlan : IsPlan plan
  unfolding plan_checks
  plan-IsPlan =
      let (schema, r) = passed in
      let (id, r) = r in
      let (name, r) = r in
      let (description, r) = r in
      let (target, r) = r in
      let (count_ok, r) = r in
      let (sources_ok, r) = r in
      let (enabled_ok, r) = r in
      let (auth, r) = r in
      let (quota_ok, r) = r in
      let (pages, r) = r in
      let (few, r) = r in
      let (faults_ok, r) = r in
      let (requests_ok, r) = r in
      record {
        identifier = ground (arith, id);
        name = ground (arith, name);
        description = ground (arith, description);
        some_sources = ground (arith, count_ok);
        sources = sources-IsSource plan.sources [] 0 sources_ok;
        identifiers = ids-Distinct plan.sources [] 0 sources_ok;
        enabled = In-of_any (λ s. s.enabled) plan.sources (ground (arith, enabled_ok));
        authentication = (validate_authentication_iff plan.authentication "authentication").0 auth;
        quota = (validate_quota_iff plan.quota "quota").0 quota_ok;
        pagination = (validate_pagination_iff plan.pagination "pagination").0 pages;
        few_faults = ground (arith, few);
        faults = (validate_faults_iff "faults" 0 plan.faults).0 faults_ok;
        requests =
            expected-Known plan.sources plan.expected_behaviour.expected_requests_per_source
              (ground (arith, requests_ok));
      }

  pub submitted-Vetted : Vetted (x.to_json plan)
  unfolding plan_checks
  submitted-Vetted =
      let (scripts, r) = passed.1.1.1.1.1.1.1.1.1.1.1.1.1.1 in
      let (address, r) = r in
      json-Vetted (x.to_json plan) (ground (arith, scripts)) (ground (arith, address))
        (ground (arith, r.0))

  pub target_tested : bad_target (normalize_domain x.parse_host plan.target_domain) ≡ false
  unfolding plan_checks
  target_tested = let t = passed.1.1.1.1.0 in ground (arith, t)
