-- ===== src/Plan/Settings.antt =====
-- The settings of a plan and of a source: authentication, quota, pagination, network, faults.
use fqdn_forge.Base.{ℕ, String, Bool, Option, List}

pub data PlanSourceTemplate : Type 0 where
  certificate passive_dns archive url_search threat_intel code_search search_engine organization
        user_import generic_json generic_html generic_csv generic_text custom_rest :
      PlanSourceTemplate

pub data AuthenticationMode : Type 0 where
  no_authentication fake_api_key missing_key wrong_key : AuthenticationMode

pub data AuthenticationLocation : Type 0 where
  header query : AuthenticationLocation

pub record PlanAuthentication : Type 0 where
  pub mode : AuthenticationMode
  pub location : AuthenticationLocation
  pub failure_status : ℕ

pub data RetryAfterFormat : Type 0 where
  seconds http_date : RetryAfterFormat

pub data QuotaExhaustedBehaviour : Type 0 where
  rate_limited forbidden empty_result : QuotaExhaustedBehaviour

pub record PlanQuota : Type 0 where
  pub request_budget : ℕ
  pub consume_per_page : Bool
  pub allow_burst : Bool
  pub rate_limit_on_request : Option ℕ
  pub retry_after_seconds : ℕ
  pub retry_after_format : RetryAfterFormat
  pub cooldown_seconds : ℕ
  pub exhausted_behaviour : QuotaExhaustedBehaviour

pub data PlanPaginationMode : Type 0 where
  no_pagination page offset cursor link post_body : PlanPaginationMode

pub record PlanPagination : Type 0 where
  pub mode : PlanPaginationMode
  pub page_size : ℕ
  pub total_pages : ℕ
  pub next_page_exists : Bool
  pub repeat_from_page : Option ℕ
  pub duplicate_ratio_percent : ℕ
  pub cursor_loop : Bool
  pub invalid_page : Option ℕ
  pub empty_final_page_with_next : Bool

pub data PlanNetworkMode : Type 0 where
  direct http_proxy connect : PlanNetworkMode

pub data ProxyAuthentication : Type 0 where
  not_required succeeds fails : ProxyAuthentication

pub data ProxySimulationFault : Type 0 where
  no_fault reject_request connect_failure slow_response disconnect not_allowlisted :
      ProxySimulationFault

pub record PlanNetworkPath : Type 0 where
  pub mode : PlanNetworkMode
  pub proxy_authentication : ProxyAuthentication
  pub proxy_fault : ProxySimulationFault
  pub allowlisted_sources : List String

pub data PlanFaultKind : Type 0 where
  slow_response timeout disconnect status500 status502 status503 status401 status403 status404
        status429 empty_response no_content invalid_json truncated_json html_instead_of_json
        wrong_content_type wrong_content_length malformed_chunked gzip deflate brotli
        corrupt_compression response_too_large :
      PlanFaultKind

pub record PlanFault : Type 0 where
  pub kind : PlanFaultKind
  pub trigger_page : ℕ
  pub occurrences : ℕ

pub data DatasetSize : Type 0 where
  small medium large : DatasetSize

pub record PlanDataset : Type 0 where
  pub size : DatasetSize
