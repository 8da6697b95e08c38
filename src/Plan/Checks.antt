-- ===== src/Plan/Checks.antt =====
-- The checks of crates/lab-core/src/plan.rs on the settings of a plan: `validate_authentication`,
-- `validate_quota`, `validate_pagination`, `validate_fault`, `safe_identifier`, and the search for IP
-- literals. An issue that is pushed is an element of the list that is returned.
use Prim.Native.Char.{code}
use Prim.Native.String.{len}
use fqdn_forge.Base.{
  ℕ, suc, ◌+◌, ◌*◌, ◌-◌, String, Bool, true, false, ◌&&◌, ◌||◌, not, Option, none, some, List, [],
  ◌∷◌, ◌++◌, ◌==◌, leb, ltb, is_some_and, is_empty_text, all_chars, all, any, length, split, concat,
  decimal, is_ascii_lowercase, is_ascii_digit,
}
use fqdn_forge.Domain.{is_dot, is_hyphen}
use fqdn_forge.Plan.Settings.{PlanAuthentication, PlanQuota, PlanPagination, PlanFault}
use fqdn_forge.Plan.Definition.{PlanSource}

pub record PlanValidationIssue : Type 0 where
  pub code : String
  pub field : String
  pub message : String

abbrev pub Issues : Type 0
Issues = List PlanValidationIssue

-- `if test { issues.push(..) }`.
abbrev pub issue_if : Bool → String → String → String → Issues
issue_if true code field message = record { code = code; field = field; message = message } ∷ []
issue_if false code field message = []

-- What one check after the other pushes.
unfoldable pub flatten : List Issues → Issues
flatten [] = []
flatten (is ∷ rest) = is ++ flatten rest

unfoldable pub validate_authentication : PlanAuthentication → String → Issues
validate_authentication authentication field =
    issue_if (not (authentication.failure_status == 401 || authentication.failure_status == 403))
      "PLAN_AUTH_STATUS_INVALID" (concat (field ∷ ".failure_status" ∷ []))
      "authentication failure_status must be 401 or 403"

-- Not between 1 and the limit.
abbrev pub outside : ℕ → ℕ → Bool
outside limit n = n == 0 || ltb limit n

unfoldable pub validate_quota : PlanQuota → String → Issues
unfolding flatten
validate_quota quota field = flatten (
    issue_if (outside 10000 quota.request_budget) "PLAN_QUOTA_INVALID"
      (concat (field ∷ ".request_budget" ∷ [])) "request_budget must be between 1 and 10000"
    ∷ issue_if (is_some_and quota.rate_limit_on_request (outside 10000)) "PLAN_RATE_LIMIT_INVALID"
        (concat (field ∷ ".rate_limit_on_request" ∷ []))
        "rate_limit_on_request must be between 1 and 10000"
    ∷ issue_if (ltb 86400 quota.retry_after_seconds || ltb 86400 quota.cooldown_seconds)
        "PLAN_COOLDOWN_INVALID" field "Retry-After and cooldown must not exceed one virtual day"
    ∷ [])

unfoldable pub validate_pagination : PlanPagination → String → Issues
unfolding flatten
validate_pagination pagination field = flatten (
    issue_if (outside 10000 pagination.page_size) "PLAN_PAGE_SIZE_INVALID"
      (concat (field ∷ ".page_size" ∷ [])) "page_size must be between 1 and 10000"
    ∷ issue_if (outside 1000 pagination.total_pages) "PLAN_TOTAL_PAGES_INVALID"
        (concat (field ∷ ".total_pages" ∷ [])) "total_pages must be between 1 and 1000"
    ∷ issue_if (ltb 100 pagination.duplicate_ratio_percent) "PLAN_DUPLICATE_RATIO_INVALID"
        (concat (field ∷ ".duplicate_ratio_percent" ∷ [])) "duplicate_ratio_percent must be 0-100"
    ∷ issue_if
        (is_some_and pagination.repeat_from_page (outside pagination.total_pages)
          || is_some_and pagination.invalid_page (outside pagination.total_pages))
        "PLAN_PAGINATION_PAGE_INVALID" field
        "repeat_from_page and invalid_page must refer to an existing page"
    ∷ [])

unfoldable pub validate_fault : PlanFault → String → Issues
validate_fault fault field =
    issue_if (fault.trigger_page == 0 || outside 100 fault.occurrences) "PLAN_FAULT_TRIGGER_INVALID"
      field "fault trigger_page must be positive and occurrences must be 1-100"

abbrev pub indexed : String → ℕ → String
indexed field index = concat (field ∷ "[" ∷ decimal index ∷ "]" ∷ [])

-- `faults.iter().enumerate()`, from a place on.
unfoldable pub validate_faults : String → ℕ → List PlanFault → Issues
unfolding validate_fault
validate_faults field index [] = []
validate_faults field index (fault ∷ rest) =
    validate_fault fault (indexed field index) ++ validate_faults field (suc index) rest

abbrev pub optional {ℓ} : {A : Type ℓ} → (A → Issues) → Option A → Issues
optional f none = []
optional f (some a) = f a

unfoldable pub settings_checks : PlanSource → String → List Issues
unfolding validate_authentication validate_quota validate_pagination validate_faults
settings_checks source field =
    optional (λ a. validate_authentication a (concat (field ∷ ".authentication" ∷ [])))
      source.authentication
    ∷ optional (λ q. validate_quota q (concat (field ∷ ".quota" ∷ []))) source.quota
    ∷ optional (λ p. validate_pagination p (concat (field ∷ ".pagination" ∷ []))) source.pagination
    ∷ validate_faults (concat (field ∷ ".faults" ∷ [])) 0 source.faults
    ∷ []

unfoldable pub validate_source_settings : PlanSource → String → Issues
unfolding settings_checks
validate_source_settings source field = flatten (settings_checks source field)

abbrev is_identifier_char : ℕ → Bool
is_identifier_char c = is_ascii_lowercase c || is_ascii_digit c || is_hyphen c || c == 95

-- A byte that passes is an ASCII character, so the bytes and the characters agree.
unfoldable pub safe_identifier : String → Bool
safe_identifier value =
    leb 3 (len value) && leb (len value) 64 && all_chars is_identifier_char value

-- The value of a text of digits, after the digits that were read.
unfoldable pub digits_value : ℕ → String → ℕ
digits_value acc String.[] = acc
digits_value acc (String.◌∷◌ c s) = digits_value (acc * 10 + (code c - 48)) s

-- `parse::<u8>().is_ok()` of a text of digits.
unfoldable pub parses_as_u8 : String → Bool
unfolding digits_value
parses_as_u8 octet = not (is_empty_text octet) && leb (digits_value 0 octet) 255

unfoldable pub contains_ip_literal : String → Bool
unfolding parses_as_u8 split
contains_ip_literal value =
    any
      (λ part.
        let octets = split is_dot part in
        length octets == 4 && all (λ octet. not (is_empty_text octet) && parses_as_u8 octet) octets)
      (split (λ c. not (is_ascii_digit c) && not (is_dot c)) value)
