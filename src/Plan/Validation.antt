-- ===== src/Plan/Validation.antt =====
-- `validate_plan_fields`, `canonicalize_plan` and `validate_plan` of crates/lab-core/src/plan.rs.
use Prim.Native.String.{count}
use fqdn_forge.Base.{
  ℕ, suc, String, Bool, true, ◌||◌, not, List, [], ◌∷◌, ◌++◌, ◌==◌, ltb, Result, ok, err, str_eq,
  if◌then◌else◌, any, length, concat, is_empty_text, contains_text, ends_with, trim,
  to_ascii_lowercase,
}
use fqdn_forge.BTreeSet.{contains}
use fqdn_forge.Model.Collector.{FilterReason}
use fqdn_forge.Domain.{HostParser, normalize_domain}
use fqdn_forge.Plan.Settings.{
  PlanAuthentication, PlanQuota, PlanPagination, PlanNetworkPath, PlanFault, PlanDataset,
}
use fqdn_forge.Plan.Definition.{PlanSource, PlanExpectedBehaviour, ExperimentPlan}
use fqdn_forge.Plan.Checks.{
  Issues, flatten, issue_if, validate_authentication, validate_quota, validate_pagination,
  validate_faults, validate_source_settings, safe_identifier, contains_ip_literal, indexed,
}

abbrev pub plan_schema_version : String
plan_schema_version = "0.2"

abbrev pub max_sources : ℕ
max_sources = 32

abbrev pub max_faults_per_source : ℕ
max_faults_per_source = 16

-- What `plan_digest` puts under the hash.
pub record PlanContent : Type 0 where
  pub schema_version : String
  pub target_domain : String
  pub seed : ℕ
  pub sources : List PlanSource
  pub authentication : PlanAuthentication
  pub quota : PlanQuota
  pub pagination : PlanPagination
  pub network_path : PlanNetworkPath
  pub faults : List PlanFault
  pub dataset : PlanDataset
  pub expected_behaviour : PlanExpectedBehaviour

-- What the plans use of other code: `Host::parse`, `serde_json::to_string` of a plan with its
-- `unwrap_or_default`, `serde_json::to_vec_pretty`, `serde_json::from_slice`, and `stable_digest` of
-- the content.
pub record PlanTools : Type 0 where
  pub parse_host : HostParser
  pub to_json : ExperimentPlan → String
  pub to_vec_pretty : ExperimentPlan → Result String String
  pub from_slice : String → Result String ExperimentPlan
  pub stable_digest : PlanContent → String

unfoldable pub plan_content : ExperimentPlan → PlanContent
plan_content plan = record {
  schema_version = plan_schema_version;
  target_domain = plan.target_domain;
  seed = plan.seed;
  sources = plan.sources;
  authentication = plan.authentication;
  quota = plan.quota;
  pagination = plan.pagination;
  network_path = plan.network_path;
  faults = plan.faults;
  dataset = plan.dataset;
  expected_behaviour = plan.expected_behaviour;
}

unfoldable pub plan_digest : PlanTools → ExperimentPlan → String
unfolding plan_content
plan_digest x plan = x.stable_digest (plan_content plan)

-- `ids.insert(id)` as a test: the identifier is new.
abbrev pub bad_id : List String → String → Bool
bad_id ids id = not (safe_identifier id) || contains ids id

-- What one round of the loop over the sources checks.
unfoldable pub source_checks : List String → ℕ → PlanSource → List Issues
unfolding validate_source_settings
source_checks ids index source =
    let field = indexed "sources" index in
    issue_if (bad_id ids source.id) "PLAN_SOURCE_ID_INVALID" (concat (field ∷ ".id" ∷ []))
      "source id must be unique and use only lowercase letters, digits, '-' or '_'"
    ∷ issue_if (ltb max_faults_per_source (length source.faults)) "PLAN_FAULTS_TOO_MANY"
        (concat (field ∷ ".faults" ∷ [])) "a source may contain at most 16 faults"
    ∷ validate_source_settings source field
    ∷ []

-- The loop, with the identifiers seen so far; an unsafe one is not inserted.
unfoldable pub validate_sources : List String → ℕ → List PlanSource → Issues
unfolding source_checks
validate_sources ids index [] = []
validate_sources ids index (source ∷ rest) =
    let seen = if bad_id ids source.id then ids else source.id ∷ ids in
    flatten (source_checks ids index source) ++ validate_sources seen (suc index) rest

-- The set that the loop leaves.
unfoldable pub source_ids : List String → List PlanSource → List String
source_ids ids [] = ids
source_ids ids (source ∷ rest) =
    source_ids (if bad_id ids source.id then ids else source.id ∷ ids) rest

abbrev pub prohibited : List String
prohibited = "http://" ∷ "https://" ∷ "javascript:" ∷ "powershell" ∷ "function(" ∷ "=>" ∷ []

abbrev pub suspicious : List String
suspicious = "authorization" ∷ "cookie" ∷ "password" ∷ "bearer " ∷ "sk-" ∷ "ghp_" ∷ []

abbrev pub mentions : List String → String → Bool
mentions words text = any (contains_text (to_ascii_lowercase text)) words

-- `target.as_deref().map_or(true, |domain| !domain.ends_with(".test"))`.
abbrev pub bad_target : Result FilterReason String → Bool
bad_target (ok domain) = not (ends_with domain ".test")
bad_target (err reason) = true

unfoldable pub plan_checks : PlanTools → ExperimentPlan → List Issues
unfolding validate_sources source_ids validate_authentication validate_quota validate_pagination
    validate_faults normalize_domain contains_ip_literal safe_identifier trim ends_with
    contains_text to_ascii_lowercase
plan_checks x plan =
    issue_if (not (str_eq plan.schema_version plan_schema_version))
      "PLAN_SCHEMA_VERSION_UNSUPPORTED" "schema_version" "schema_version must be 0.2"
    ∷ issue_if (not (safe_identifier plan.plan_id)) "PLAN_ID_INVALID" "plan_id"
        "plan_id must be 3-64 lowercase letters, digits, '-' or '_'"
    ∷ issue_if (is_empty_text (trim plan.name) || ltb 120 (count plan.name)) "PLAN_NAME_INVALID"
        "name" "name must contain 1-120 characters"
    ∷ issue_if (ltb 2000 (count plan.description)) "PLAN_DESCRIPTION_TOO_LONG" "description"
        "description must not exceed 2000 characters"
    ∷ issue_if (bad_target (normalize_domain x.parse_host plan.target_domain))
        "PLAN_TARGET_DOMAIN_INVALID" "target_domain"
        "target_domain must be a valid local synthetic .test domain"
    ∷ issue_if (length plan.sources == 0 || ltb max_sources (length plan.sources))
        "PLAN_SOURCES_INVALID" "sources" "a plan must contain 1-32 sources"
    ∷ validate_sources [] 0 plan.sources
    ∷ issue_if (not (any (λ source. source.enabled) plan.sources)) "PLAN_NO_ENABLED_SOURCES"
        "sources" "at least one source must be enabled"
    ∷ validate_authentication plan.authentication "authentication"
    ∷ validate_quota plan.quota "quota"
    ∷ validate_pagination plan.pagination "pagination"
    ∷ issue_if (ltb max_faults_per_source (length plan.faults)) "PLAN_FAULTS_TOO_MANY" "faults"
        "a plan may contain at most 16 shared faults"
    ∷ validate_faults "faults" 0 plan.faults
    ∷ issue_if
        (any (λ e. not (contains (source_ids [] plan.sources) e.0) || e.1 == 0)
          plan.expected_behaviour.expected_requests_per_source)
        "PLAN_EXPECTED_REQUESTS_INVALID" "expected_behaviour.expected_requests_per_source"
        "expected request counts require a known source and a positive value"
    ∷ issue_if (mentions prohibited (x.to_json plan)) "PLAN_UNSAFE_CONTENT" "plan"
        "plans cannot contain URLs, scripts, dynamic expressions, or external network targets"
    ∷ issue_if (contains_ip_literal (x.to_json plan)) "PLAN_EXTERNAL_ADDRESS_FORBIDDEN" "plan"
        "plans cannot contain IP addresses or external network addresses"
    ∷ issue_if (mentions suspicious (x.to_json plan)) "PLAN_REAL_CREDENTIAL_FORBIDDEN" "plan"
        "plans store only authentication modes and redacted placeholders, never credentials"
    ∷ []

unfoldable pub validate_plan_fields : PlanTools → ExperimentPlan → Issues
unfolding plan_checks
validate_plan_fields x plan = flatten (plan_checks x plan)
