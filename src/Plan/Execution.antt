-- ===== src/Plan/Execution.antt =====
-- `simulate_sources`, `plan_truth` and the texts of the audit (crates/lab-core/src/plan.rs).
use fqdn_forge.Base.{
  ℕ, zero, suc, ◌+◌, ◌-◌, ◌/◌, ◌^◌, min, String, Bool, ◌&&◌, ◌||◌, Option, none, some, List, [],
  ◌∷◌, ◌++◌, map, ◌==◌, ltb, if◌then◌else◌, keep, length, is_some, str_eq, saturating_add,
  saturating_mul, concat, decimal,
}
use fqdn_forge.BTreeMap.{BTreeMap, empty, insert}
use fqdn_forge.BTreeSet.{collect, contains}
use fqdn_forge.Plan.Settings.{
  PlanAuthentication, AuthenticationMode, PlanQuota, RetryAfterFormat, QuotaExhaustedBehaviour,
  PlanPagination, PlanPaginationMode, PlanFaultKind,
}
use fqdn_forge.Plan.Definition.{PlanSource, ExperimentPlan}
use fqdn_forge.Plan.Run.{PlanRequestAuditStep, PlanRunAuditEntry}
use fqdn_forge.Plan.Simulation.{
  dataset_record_count, is_paginated, is_at, SourceSettings, source_settings, page_count, fault_at,
  SourceRun, refuses_key, run_source,
}

abbrev pub generated_fqdn : ExperimentPlan → PlanSource → ℕ → String
generated_fqdn plan source index =
    concat
      (source.id ∷ "-" ∷ decimal plan.seed ∷ "-" ∷ decimal index ∷ "." ∷ plan.target_domain ∷ [])

abbrev pub enabled_sources : ExperimentPlan → List PlanSource
enabled_sources plan = keep (λ source. source.enabled) plan.sources

-- The first name of each enabled source.
abbrev pub generated : ExperimentPlan → List String
generated plan = map (λ source. generated_fqdn plan source 1) (enabled_sources plan)

pub record PlanTruth : Type 0 where
  pub expected_fqdns : List String
  pub forbidden_fqdns : List String
  pub minimum_unique_fqdns : ℕ
  pub filtered_candidates : List String

unfoldable pub plan_truth : ExperimentPlan → PlanTruth
unfolding dataset_record_count
plan_truth plan = record {
  expected_fqdns =
      if length plan.expected_behaviour.expected_fqdns == 0
      then generated plan
      else plan.expected_behaviour.expected_fqdns;
  forbidden_fqdns = plan.expected_behaviour.forbidden_fqdns;
  minimum_unique_fqdns = dataset_record_count plan.dataset.size;
  filtered_candidates = plan.expected_behaviour.filtered_candidates;
}

-- The numbers from `index` on, `count` of them.
unfoldable pub range_from : ℕ → ℕ → List ℕ
range_from index zero = []
range_from index (suc count) = index ∷ range_from (suc index) count

-- The range `start..end` and the names of its places.
unfoldable pub plan_source_page_records : ExperimentPlan → PlanSource → ℕ → ℕ → List String
unfolding range_from dataset_record_count
plan_source_page_records plan source page page_size =
    let total = dataset_record_count plan.dataset.size in
    let start = saturating_mul (page - 1) page_size in
    let end = min (saturating_add start page_size) total in
    map (λ index. generated_fqdn plan source (saturating_add index 1))
      (range_from start (end - start))

unfoldable pub pagination_token : PlanPagination → ℕ → String
pagination_token p page = elim p.mode [
  | PlanPaginationMode.no_pagination ↦ "single"
  | PlanPaginationMode.page ↦ decimal page
  | PlanPaginationMode.offset ↦ decimal (saturating_mul (page - 1) p.page_size)
  | PlanPaginationMode.cursor ↦ concat ("cursor-" ∷ decimal page ∷ [])
  | PlanPaginationMode.link ↦ concat ("page-" ∷ decimal page ∷ [])
  | PlanPaginationMode.post_body ↦ concat ("body-" ∷ decimal page ∷ [])
]

-- `chrono`: the HTTP date of the fixed virtual clock, so many seconds later.
abbrev pub Clock : Type 0
Clock = ℕ → String

-- `wait_ms.div_ceil(1_000)`, as an `i64`.
unfoldable pub virtual_http_date_after : Clock → ℕ → String
virtual_http_date_after clock wait_ms =
    let seconds = (wait_ms + 999) / 1000 in
    clock (if ltb (2 ^ 63 - 1) seconds then 2 ^ 63 - 1 else seconds)

unfoldable pub retry_after_value : Clock → PlanQuota → String
unfolding virtual_http_date_after
retry_after_value clock q = elim q.retry_after_format [
  | RetryAfterFormat.seconds ↦ decimal q.retry_after_seconds
  | RetryAfterFormat.http_date ↦
      virtual_http_date_after clock
        (saturating_mul (saturating_add q.retry_after_seconds q.cooldown_seconds) 1000)
]

abbrev pub outcome_of_mode : AuthenticationMode → String
outcome_of_mode AuthenticationMode.no_authentication = "not_required"
outcome_of_mode AuthenticationMode.fake_api_key = "accepted_with_fake_key"
outcome_of_mode AuthenticationMode.missing_key = "missing_key_rejected"
outcome_of_mode AuthenticationMode.wrong_key = "wrong_key_rejected"

abbrev pub authentication_outcome : PlanAuthentication → String
authentication_outcome a = outcome_of_mode a.mode

abbrev pub exhausted_status : QuotaExhaustedBehaviour → ℕ
exhausted_status QuotaExhaustedBehaviour.forbidden = 403
exhausted_status QuotaExhaustedBehaviour.empty_result = 200
exhausted_status QuotaExhaustedBehaviour.rate_limited = 429

abbrev pub kind_status : PlanFaultKind → ℕ
kind_status PlanFaultKind.status401 = 401
kind_status PlanFaultKind.status403 = 403
kind_status PlanFaultKind.status404 = 404
kind_status PlanFaultKind.status429 = 429
kind_status PlanFaultKind.status500 = 500
kind_status PlanFaultKind.status502 = 502
kind_status PlanFaultKind.status503 = 503
kind_status PlanFaultKind.no_content = 204
kind_status _ = 200

abbrev pub fault_status : Option PlanFaultKind → ℕ
fault_status none = 200
fault_status (some kind) = kind_status kind

abbrev pub kind_at : SourceSettings → Option ℕ → Option PlanFaultKind
kind_at c none = none
kind_at c (some page) = elim (fault_at c page) [ none ↦ none | some fault ↦ some fault.kind ]

-- The page of a request, if the source has pages.
abbrev pub page_of : SourceSettings → ℕ → Option ℕ
page_of c request_number =
    if is_paginated c.pagination.mode then some (min request_number (page_count c)) else none

unfoldable pub rate_limited_request : PlanQuota → ℕ → Bool
rate_limited_request q request_number =
    is_at q.rate_limit_on_request request_number
    || (q.consume_per_page && ltb q.request_budget request_number)

unfoldable pub response_status : SourceSettings → ℕ → ℕ
unfolding rate_limited_request
response_status c request_number =
    if refuses_key c.authentication.mode
    then c.authentication.failure_status
    else if rate_limited_request c.quota request_number
    then exhausted_status c.quota.exhausted_behaviour
    else fault_status (kind_at c (page_of c request_number))

abbrev token_of : PlanPagination → Option ℕ → Option String
token_of p none = none
token_of p (some page) = some (pagination_token p page)

unfoldable pub expected_request : Clock → ExperimentPlan → SourceSettings → ℕ → PlanRequestAuditStep
unfolding response_status pagination_token retry_after_value rate_limited_request
expected_request clock plan c request_number =
    let status = response_status c request_number in
    record {
      request_number = request_number;
      page = page_of c request_number;
      pagination_token = token_of c.pagination (page_of c request_number);
      response_status = status;
      quota_consumed = c.quota.consume_per_page;
      rate_limit_reason =
          if rate_limited_request c.quota request_number
          then some "configured rate limit or exhausted request budget"
          else none;
      retry_after = if status == 429 then some (retry_after_value clock c.quota) else none;
      virtual_wait_ms =
          if status == 429
          then saturating_mul (saturating_add c.quota.retry_after_seconds c.quota.cooldown_seconds)
              1000
          else 0;
      authentication = authentication_outcome c.authentication;
      network_mode = plan.network_path.mode;
      proxy_authentication = plan.network_path.proxy_authentication;
      proxy_fault = plan.network_path.proxy_fault;
      triggered_fault = kind_at c (page_of c request_number);
    }

unfoldable pub audit_entry :
    Clock → ExperimentPlan → PlanSource → SourceSettings → SourceRun → PlanRunAuditEntry
unfolding expected_request range_from retry_after_value
audit_entry clock plan source c r = record {
  source_id = source.id;
  request_count = r.request_count;
  retry_count = r.retries;
  virtual_wait_ms = r.virtual_wait_ms;
  quota_consumed = r.quota_consumed;
  rate_limited = r.rate_limited;
  status = r.status;
  failure = r.failure;
  expected_requests = map (expected_request clock plan c) (range_from 1 r.request_count);
  actual_requests = [];
  authentication = authentication_outcome c.authentication;
  rate_limit_reason = if r.rate_limited then some "configured quota or 429 response" else none;
  retry_after = if r.rate_limited then some (retry_after_value clock c.quota) else none;
  network_mode = plan.network_path.mode;
  proxy_authentication = plan.network_path.proxy_authentication;
  proxy_fault = plan.network_path.proxy_fault;
}

-- What the loop over the sources writes.
pub record Simulation : Type 0 where
  pub audit : List PlanRunAuditEntry
  pub statuses : BTreeMap String
  pub failures : List String
  pub discovered : ℕ
  pub filtered : ℕ

abbrev pub succeeded : String → Bool
succeeded status = str_eq status "succeeded"

-- The records of a source that succeeded, less its duplicates.
unfoldable pub unique_records : ExperimentPlan → PlanPagination → ℕ
unfolding dataset_record_count
unique_records plan p =
    let records = dataset_record_count plan.dataset.size in
    records - saturating_mul records p.duplicate_ratio_percent / 100

abbrev or_failed : Option String → String
or_failed none = "source failed"
or_failed (some failure) = failure

unfoldable pub simulate_source : Clock → ExperimentPlan → PlanSource → Simulation → Simulation
unfolding run_source source_settings audit_entry unique_records
simulate_source clock plan source s =
    let c = source_settings plan source in
    let r = run_source c s.filtered in
    record {
      audit = s.audit ++ audit_entry clock plan source c r ∷ [];
      statuses = insert source.id r.status s.statuses;
      failures =
          if succeeded r.status
          then s.failures
          else s.failures ++ concat (source.id ∷ ": " ∷ or_failed r.failure ∷ []) ∷ [];
      discovered =
          if succeeded r.status
          then saturating_add s.discovered (unique_records plan c.pagination)
          else s.discovered;
      filtered =
          if succeeded r.status && is_some c.pagination.repeat_from_page
          then saturating_add r.filtered 1
          else r.filtered;
    }

unfoldable pub simulate_each : Clock → ExperimentPlan → List PlanSource → Simulation → Simulation
unfolding simulate_source
simulate_each clock plan [] s = s
simulate_each clock plan (source ∷ rest) s =
    simulate_each clock plan rest (simulate_source clock plan source s)

abbrev pub no_simulation : ExperimentPlan → Simulation
no_simulation plan = record {
  audit = [];
  statuses = empty;
  failures = [];
  discovered = 0;
  filtered = length plan.expected_behaviour.filtered_candidates;
}

-- `expected.intersection(&generated).count().min(discovered)`, of two sets.
unfoldable pub correct_findings : List String → List String → ℕ → ℕ
unfolding collect contains
correct_findings expected found discovered =
    min (length (keep (contains (collect found)) (collect expected))) discovered

pub record SimulationResult : Type 0 where
  pub audit : List PlanRunAuditEntry
  pub statuses : BTreeMap String
  pub failures : List String
  pub correct : ℕ
  pub missed : ℕ
  pub filtered : ℕ

abbrev pub missing_fqdns : ℕ → String
missing_fqdns missed =
    concat ("server-side judge found " ∷ decimal missed ∷ " missing expected FQDN(s)" ∷ [])

unfoldable pub simulate_sources : Clock → ExperimentPlan → PlanTruth → SimulationResult
unfolding simulate_each correct_findings collect
simulate_sources clock plan truth =
    let s = simulate_each clock plan (enabled_sources plan) (no_simulation plan) in
    let correct = correct_findings truth.expected_fqdns (generated plan) s.discovered in
    let missed = length (collect truth.expected_fqdns) - correct in
    record {
      audit = s.audit;
      statuses = s.statuses;
      failures = if ltb 0 missed then s.failures ++ missing_fqdns missed ∷ [] else s.failures;
      correct = correct;
      missed = missed;
      filtered = s.filtered;
    }
