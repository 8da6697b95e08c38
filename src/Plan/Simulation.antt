-- ===== src/Plan/Simulation.antt =====
-- The simulation of one source: `fault_outcome` and the loop over the pages in `simulate_sources`
-- (crates/lab-core/src/plan.rs).
use fqdn_forge.Base.{
  ℕ, zero, suc, String, Bool, true, false, Option, none, some, List, [], ◌∷◌, ◌++◌, ◌==◌, ltb,
  if◌then◌else◌, ◌&&◌, find, is_some_and, saturating_add, saturating_mul, concat, decimal,
}
use fqdn_forge.Plan.Settings.{
  PlanAuthentication, AuthenticationMode, PlanQuota, QuotaExhaustedBehaviour, PlanPagination,
  PlanPaginationMode, PlanFault, PlanFaultKind, DatasetSize,
}
use fqdn_forge.Plan.Definition.{PlanSource, ExperimentPlan}

-- A status and a message, or nothing for a fault that the simulation passes over.
unfoldable pub fault_outcome : PlanFaultKind → Option (String × String)
fault_outcome PlanFaultKind.gzip = none
fault_outcome PlanFaultKind.deflate = none
fault_outcome PlanFaultKind.brotli = none
fault_outcome PlanFaultKind.status429 = some ("rate_limited", "simulated 429 rate limit")
fault_outcome PlanFaultKind.status401 = some ("auth_failed", "simulated authentication failure")
fault_outcome PlanFaultKind.status403 = some ("auth_failed", "simulated authentication failure")
fault_outcome PlanFaultKind.timeout = some ("timed_out", "simulated timeout")
fault_outcome PlanFaultKind.slow_response = some ("timed_out", "simulated timeout")
fault_outcome PlanFaultKind.disconnect = some ("failed", "simulated connection disconnect")
fault_outcome PlanFaultKind.empty_response = none
fault_outcome PlanFaultKind.no_content = none
fault_outcome _ = some ("failed", "simulated controlled response fault")

unfoldable pub dataset_record_count : DatasetSize → ℕ
dataset_record_count DatasetSize.small = 24
dataset_record_count DatasetSize.medium = 3000
dataset_record_count DatasetSize.large = 100000

abbrev pub is_status429 : PlanFaultKind → Bool
is_status429 PlanFaultKind.status429 = true
is_status429 _ = false

abbrev pub is_paginated : PlanPaginationMode → Bool
is_paginated PlanPaginationMode.no_pagination = false
is_paginated _ = true

-- `quota.rate_limit_on_request == Some(page)`, and `pagination.invalid_page == Some(page)`.
abbrev pub is_at : Option ℕ → ℕ → Bool
is_at o page = is_some_and o (λ n. n == page)

-- The settings that hold for a source: its own, or the plan's.
pub record SourceSettings : Type 0 where
  pub authentication : PlanAuthentication
  pub quota : PlanQuota
  pub pagination : PlanPagination
  pub faults : List PlanFault

abbrev pub own_or {ℓ} : {A : Type ℓ} → A → Option A → A
own_or shared none = shared
own_or shared (some own) = own

unfoldable pub source_settings : ExperimentPlan → PlanSource → SourceSettings
source_settings plan source = record {
  authentication = own_or plan.authentication source.authentication;
  quota = own_or plan.quota source.quota;
  pagination = own_or plan.pagination source.pagination;
  faults = source.faults ++ plan.faults;
}

abbrev pub page_count : SourceSettings → ℕ
page_count c = if is_paginated c.pagination.mode then c.pagination.total_pages else 1

-- What the loop writes.
pub record SourceRun : Type 0 where
  pub request_count : ℕ
  pub retries : ℕ
  pub virtual_wait_ms : ℕ
  pub quota_consumed : ℕ
  pub rate_limited : Bool
  pub failure : Option String
  pub status : String
  pub filtered : ℕ

-- `continue`, with the end of the body, or `break`.
pub data Flow : Type 0 where
  continue : SourceRun → Flow
  break : SourceRun → Flow

-- The rest of the loop, unless it ended.
abbrev pub follow : Flow → (SourceRun → SourceRun) → SourceRun
follow (Flow.continue r) rest = rest r
follow (Flow.break r) rest = r

abbrev pub fail_with : String → String → SourceRun → SourceRun
fail_with status failure r = record r { status = status; failure = some failure }

-- The request and its quota.
unfoldable pub send_page : PlanQuota → SourceRun → SourceRun
send_page q r = record r {
  request_count = saturating_add r.request_count 1;
  quota_consumed =
      if q.consume_per_page then saturating_add r.quota_consumed 1 else r.quota_consumed;
}

-- A configured rate limit.
unfoldable pub limit_page : PlanQuota → ℕ → SourceRun → SourceRun
limit_page q page r =
    if is_at q.rate_limit_on_request page
    then record r {
      rate_limited = true;
      retries = saturating_add r.retries 1;
      virtual_wait_ms =
          saturating_add r.virtual_wait_ms
            (saturating_mul (saturating_add q.retry_after_seconds q.cooldown_seconds) 1000);
    }
    else r

unfoldable pub exhausted : QuotaExhaustedBehaviour → SourceRun → SourceRun
exhausted QuotaExhaustedBehaviour.empty_result r = record r { rate_limited = true }
exhausted QuotaExhaustedBehaviour.rate_limited r =
    fail_with "rate_limited" "request budget exhausted with 429" (record r { rate_limited = true })
exhausted QuotaExhaustedBehaviour.forbidden r =
    fail_with "failed" "request budget exhausted with 403" (record r { rate_limited = true })

-- The end of the body: what the pagination does wrong on the page.
unfoldable pub paginate : PlanPagination → ℕ → ℕ → SourceRun → Flow
paginate p pages page r =
    if p.cursor_loop
    then Flow.break (
        fail_with "failed" "cursor loop detected by server-side judge"
          (record r { filtered = saturating_add r.filtered 1 }))
    else if is_at p.invalid_page page
    then Flow.break (fail_with "failed" "invalid pagination token returned" r)
    else if p.empty_final_page_with_next && page == pages
    then Flow.break (fail_with "failed" "empty final page advertised another page" r)
    else Flow.continue r

-- A fault with an outcome ends the loop, but for a 429, after which the next page is requested.
unfoldable pub strike : PlanQuota → PlanFaultKind → String × String → SourceRun → Flow
strike q kind outcome r =
    if is_status429 kind
    then Flow.continue (record r {
      rate_limited = true;
      retries = saturating_add r.retries 1;
      virtual_wait_ms =
          saturating_add r.virtual_wait_ms (saturating_mul q.retry_after_seconds 1000);
      status = "succeeded";
      failure = none;
    })
    else Flow.break (fail_with outcome.0 outcome.1 r)

abbrev pub with_outcome :
    SourceSettings → ℕ → ℕ → PlanFaultKind → Option (String × String) → SourceRun → Flow
with_outcome c pages page kind none r = paginate c.pagination pages page r
with_outcome c pages page kind (some outcome) r = strike c.quota kind outcome r

abbrev pub with_fault : SourceSettings → ℕ → ℕ → Option PlanFault → SourceRun → Flow
with_fault c pages page none r = paginate c.pagination pages page r
with_fault c pages page (some fault) r =
    with_outcome c pages page fault.kind (fault_outcome fault.kind) r

abbrev pub fault_at : SourceSettings → ℕ → Option PlanFault
fault_at c page = find (λ fault. fault.trigger_page == page) c.faults

-- The body of the loop.
unfoldable pub request_page : SourceSettings → ℕ → ℕ → SourceRun → Flow
unfolding send_page limit_page exhausted paginate strike fault_outcome
request_page c pages page r =
    let sent = limit_page c.quota page (send_page c.quota r) in
    if ltb c.quota.request_budget sent.quota_consumed
    then Flow.break (exhausted c.quota.exhausted_behaviour sent)
    else with_fault c pages page (fault_at c page) sent

-- `for page in 1..=pages`, from a page on, with the number of pages that are left.
unfoldable pub request_pages : SourceSettings → ℕ → ℕ → ℕ → SourceRun → SourceRun
unfolding request_page
request_pages c pages zero page r = r
request_pages c pages (suc left) page r =
    follow (request_page c pages page r) (request_pages c pages left (suc page))

abbrev pub fresh_run : ℕ → SourceRun
fresh_run filtered = record {
  request_count = 0;
  retries = 0;
  virtual_wait_ms = 0;
  quota_consumed = 0;
  rate_limited = false;
  failure = none;
  status = "succeeded";
  filtered = filtered;
}

abbrev pub refuses_key : AuthenticationMode → Bool
refuses_key AuthenticationMode.missing_key = true
refuses_key AuthenticationMode.wrong_key = true
refuses_key _ = false

-- The `match` on the authentication, up to the count of the records.
unfoldable pub run_source : SourceSettings → ℕ → SourceRun
unfolding request_pages
run_source c filtered =
    let pages = page_count c in
    if refuses_key c.authentication.mode
    then record (fresh_run filtered) {
      status = "auth_failed";
      request_count = 1;
      failure = some (
          concat (
            "simulated authentication rejected with "
            ∷ decimal c.authentication.failure_status
            ∷ []));
    }
    else request_pages c pages pages 1 (fresh_run filtered)
