-- ===== src/Plan/Canonical.antt =====
-- `canonicalize_plan` and `validate_plan` of crates/lab-core/src/plan.rs.
use fqdn_forge.Base.{
  String, Bool, true, false, ◌&&◌, not, Option, none, some, List, [], ◌∷◌, Result, ok, err, ◌>>=◌,
  map_err, str_eq, if◌then◌else◌, is_empty_text, before,
}
use fqdn_forge.Domain.{HostParser, normalize_domain}
use fqdn_forge.Plan.Definition.{PlanStatus, ExperimentPlan}
use fqdn_forge.Plan.Checks.{Issues}
use fqdn_forge.Plan.Validation.{PlanTools, plan_schema_version, validate_plan_fields, plan_digest}

-- `sort` of texts.
unfoldable pub insert_sorted : String → List String → List String
insert_sorted x [] = x ∷ []
insert_sorted x (y ∷ ys) = if before y x then y ∷ insert_sorted x ys else x ∷ y ∷ ys

unfoldable pub sort : List String → List String
unfolding insert_sorted
sort [] = []
sort (x ∷ xs) = insert_sorted x (sort xs)

-- `dedup`: of equal neighbours one stays.
unfoldable pub dedup : List String → List String
dedup [] = []
dedup (x ∷ []) = x ∷ []
dedup (x ∷ y ∷ ys) = let rest = dedup (y ∷ ys) in if str_eq x y then rest else x ∷ rest

abbrev pub one_issue : String → String → String → Issues
one_issue code field message = record { code = code; field = field; message = message } ∷ []

abbrev pub expected_issue : Issues
expected_issue =
    one_issue "PLAN_EXPECTED_FQDN_INVALID" "expected_behaviour.expected_fqdns"
      "expected FQDN must be a valid domain"

abbrev pub forbidden_issue : Issues
forbidden_issue =
    one_issue "PLAN_FORBIDDEN_FQDN_INVALID" "expected_behaviour.forbidden_fqdns"
      "forbidden FQDN must be a valid domain"

-- `normalize_domain(..).map_err(..)` of every name in place.
unfoldable pub normalize_names : HostParser → Issues → List String → Result Issues (List String)
unfolding normalize_domain
normalize_names parse issues [] = ok []
normalize_names parse issues (name ∷ rest) =
    map_err (λ _. issues) (normalize_domain parse name) >>= λ n.
    normalize_names parse issues rest >>= λ ns. ok (n ∷ ns)

abbrev pub shown_status : PlanStatus → PlanStatus
shown_status PlanStatus.invalid = PlanStatus.draft
shown_status PlanStatus.draft = PlanStatus.draft
shown_status PlanStatus.runnable = PlanStatus.runnable
shown_status PlanStatus.archived = PlanStatus.archived

-- The plan with its names normalized, its lists sorted and without repetition.
unfoldable pub with_names : String → List String → List String → ExperimentPlan → ExperimentPlan
unfolding sort dedup
with_names target expected forbidden plan = record plan {
  schema_version = plan_schema_version;
  target_domain = target;
  expected_behaviour = record plan.expected_behaviour {
    expected_fqdns = dedup (sort expected);
    forbidden_fqdns = dedup (sort forbidden);
  };
}

-- The comparison of the digest, and the last two writes.
unfoldable pub seal : PlanTools → Bool → ExperimentPlan → Result Issues ExperimentPlan
unfolding plan_digest
seal x verify_digest plan =
    let digest = plan_digest x plan in
    if verify_digest && not (is_empty_text plan.plan_digest) && not (str_eq plan.plan_digest digest)
    then err (
        one_issue "PLAN_DIGEST_MISMATCH" "plan_digest"
          "plan_digest does not match the normalized plan content")
    else ok (record plan { status = shown_status plan.status; plan_digest = digest })

abbrev pub none_of : Issues → Result Issues Unit
none_of [] = ok tt
none_of (issue ∷ issues) = err (issue ∷ issues)

unfoldable pub canonicalize_plan : PlanTools → ExperimentPlan → Bool → Result Issues ExperimentPlan
unfolding validate_plan_fields normalize_names with_names seal normalize_domain
canonicalize_plan x plan verify_digest = none_of (validate_plan_fields x plan) >>= λ _.
    map_err
      (λ _.
        one_issue "PLAN_TARGET_DOMAIN_INVALID" "target_domain"
          "target_domain must be a valid synthetic .test domain")
      (normalize_domain x.parse_host plan.target_domain)
    >>= λ target.
        normalize_names x.parse_host expected_issue plan.expected_behaviour.expected_fqdns
        >>= λ expected.
            normalize_names x.parse_host forbidden_issue plan.expected_behaviour.forbidden_fqdns
            >>= λ forbidden. seal x verify_digest (with_names target expected forbidden plan)

pub record PlanValidationResult : Type 0 where
  pub schema_version : String
  pub valid : Bool
  pub issues : Issues
  pub plan_digest : Option String
  pub normalized_plan : Option ExperimentPlan

abbrev pub validation_result : Result Issues ExperimentPlan → PlanValidationResult
validation_result (ok plan) = record {
  schema_version = plan_schema_version;
  valid = true;
  issues = [];
  plan_digest = some plan.plan_digest;
  normalized_plan = some plan;
}
validation_result (err issues) = record {
  schema_version = plan_schema_version;
  valid = false;
  issues = issues;
  plan_digest = none;
  normalized_plan = none;
}

unfoldable pub validate_plan : PlanTools → ExperimentPlan → Bool → PlanValidationResult
unfolding canonicalize_plan
validate_plan x plan verify_digest = validation_result (canonicalize_plan x plan verify_digest)
