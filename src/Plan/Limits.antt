-- ===== src/Plan/Limits.antt =====
-- What the checks of a plan's settings admit.
use fqdn_forge.Base.{
  ℕ, ◌≤◌, suc, String, ◌≡◌, refl, ◌↔◌, ◌⊎◌, inl, inr, Bool, true, false, Option, none, some, List,
  [], ◌∷◌, ◌++◌, arith, Bool-cases, All, is_some_and, ◌==◌, concat,
}
use fqdn_forge.Plan.Settings.{PlanAuthentication, PlanQuota, PlanPagination, PlanFault}
use fqdn_forge.Plan.Definition.{PlanSource}
use fqdn_forge.Plan.Checks.{
  Issues, flatten, issue_if, optional, indexed, outside, validate_authentication, validate_quota,
  validate_pagination, validate_fault, validate_faults, settings_checks, validate_source_settings,
}

-- The page or request that is named, if one is, lies between 1 and the limit.
abbrev pub Within : ℕ → Option ℕ → Type 0
Within limit none = Unit
Within limit (some n) = (1 ≤ n) × (n ≤ limit)

abbrev pub AuthenticationFits : PlanAuthentication → Type 0
AuthenticationFits a = (a.failure_status ≡ 401) ⊎ (a.failure_status ≡ 403)

pub record QuotaFits (q : PlanQuota) : Type 0 where
  pub budget : (1 ≤ q.request_budget) × (q.request_budget ≤ 10000)
  pub rate_limit : Within 10000 q.rate_limit_on_request
  pub retry_after : q.retry_after_seconds ≤ 86400
  pub cooldown : q.cooldown_seconds ≤ 86400

pub record PaginationFits (p : PlanPagination) : Type 0 where
  pub page_size : (1 ≤ p.page_size) × (p.page_size ≤ 10000)
  pub total_pages : (1 ≤ p.total_pages) × (p.total_pages ≤ 1000)
  pub duplicates : p.duplicate_ratio_percent ≤ 100
  pub repeats : Within p.total_pages p.repeat_from_page
  pub invalid : Within p.total_pages p.invalid_page

abbrev pub FaultFits : PlanFault → Type 0
FaultFits f = (1 ≤ f.trigger_page) × (1 ≤ f.occurrences) × (f.occurrences ≤ 100)

abbrev pub IfGiven : {A : Type 0} → (A → Type 0) → Option A → Type 0
IfGiven P none = Unit
IfGiven P (some a) = P a

pub record SourceFits (s : PlanSource) : Type 0 where
  pub authentication : IfGiven AuthenticationFits s.authentication
  pub quota : IfGiven QuotaFits s.quota
  pub pagination : IfGiven PaginationFits s.pagination
  pub faults : All FaultFits s.faults

-- Two lists of issues are empty together exactly when both are.
pub append_empty : (is js : Issues) → (is ++ js ≡ []) ↔ ((is ≡ []) × (js ≡ []))
append_empty [] js = ((λ h. (refl, h)), λ h. h.1)
append_empty (i ∷ is) js = ((λ h. absurd (cc h)), λ h. absurd (cc h.0))

-- Nothing is pushed exactly when no check pushes anything.
pub flatten_empty : (checks : List Issues) → (flatten checks ≡ []) ↔ All (λ is. is ≡ []) checks
unfolding flatten
flatten_empty [] = ((λ h. tt), λ h. refl)
flatten_empty (is ∷ rest) =
    let both = append_empty is (flatten rest) in
    let later = flatten_empty rest in
    ((λ h. let t = both.0 h in (t.0, later.0 t.1)), λ t. both.1 (t.0, later.1 t.1))

pub issue_if_empty :
    (b : Bool) (code field message : String) → (issue_if b code field message ≡ []) ↔ (b ≡ false)
issue_if_empty true code field message = ((λ h. absurd (cc h)), λ h. absurd (cc h))
issue_if_empty false code field message = ((λ h. refl), λ h. refl)

outside-Within :
    (limit : ℕ) (o : Option ℕ) → (is_some_and o (outside limit) ≡ false) ↔ Within limit o
outside-Within limit none = ((λ h. tt), λ h. refl)
outside-Within limit (some n) = ground arith

pub validate_authentication_iff :
    (a : PlanAuthentication) (field : String)
    → (validate_authentication a field ≡ []) ↔ AuthenticationFits a
unfolding validate_authentication
validate_authentication_iff a field = elim (Bool-cases (a.failure_status == 401)) [
  | inl e ↦ ((λ h. inl (ground (arith, e))), λ h. ground (arith, e))
  | inr e ↦ ((λ h. inr (ground (arith, e, h))), λ h. ground (arith, e, h))
]

pub validate_quota_iff :
    (q : PlanQuota) (field : String) → (validate_quota q field ≡ []) ↔ QuotaFits q
unfolding validate_quota
validate_quota_iff q field = ground (arith, outside-Within 10000 q.rate_limit_on_request)

validate_fault_iff : (f : PlanFault) (field : String) → (validate_fault f field ≡ []) ↔ FaultFits f
unfolding validate_fault
validate_fault_iff f field = ground arith

pub validate_pagination_iff :
    (p : PlanPagination) (field : String) → (validate_pagination p field ≡ []) ↔ PaginationFits p
unfolding validate_pagination
validate_pagination_iff p field = ground (
  arith,
  outside-Within p.total_pages p.repeat_from_page,
  outside-Within p.total_pages p.invalid_page,
)

pub validate_faults_iff :
    (field : String) (index : ℕ) (fs : List PlanFault)
    → (validate_faults field index fs ≡ []) ↔ All FaultFits fs
unfolding validate_faults
validate_faults_iff field index [] = ((λ h. tt), λ h. refl)
validate_faults_iff field index (f ∷ fs) =
    let here = validate_fault_iff f (indexed field index) in
    let later = validate_faults_iff field (suc index) fs in
    let both =
      append_empty (validate_fault f (indexed field index))
        (validate_faults field (suc index) fs) in
    ((λ h. let t = both.0 h in (here.0 t.0, later.0 t.1)), λ t. both.1 (here.1 t.0, later.1 t.1))

optional_iff :
    {A : Type 0} (f : A → Issues) (P : A → Type 0)
    → ((a : A) → (f a ≡ []) ↔ P a)
    → (o : Option A) → (optional f o ≡ []) ↔ IfGiven P o
optional_iff f P each none = ((λ h. tt), λ h. refl)
optional_iff f P each (some a) = each a

-- The settings of a source pass exactly when they lie within their limits.
pub validate_source_settings_iff :
    (s : PlanSource) (field : String) → (validate_source_settings s field ≡ []) ↔ SourceFits s
unfolding validate_source_settings
validate_source_settings_iff s field =
    let a =
      optional_iff (λ a. validate_authentication a (concat (field ∷ ".authentication" ∷ [])))
        AuthenticationFits
        (λ a. validate_authentication_iff a (concat (field ∷ ".authentication" ∷ [])))
        s.authentication in
    let q =
      optional_iff (λ q. validate_quota q (concat (field ∷ ".quota" ∷ []))) QuotaFits
        (λ q. validate_quota_iff q (concat (field ∷ ".quota" ∷ []))) s.quota in
    let p =
      optional_iff (λ p. validate_pagination p (concat (field ∷ ".pagination" ∷ []))) PaginationFits
        (λ p. validate_pagination_iff p (concat (field ∷ ".pagination" ∷ []))) s.pagination in
    let f = validate_faults_iff (concat (field ∷ ".faults" ∷ [])) 0 s.faults in
    (
      λ h.
          let checks = (flatten_empty (settings_checks s field)).0 h in
          record {
            authentication = a.0 checks.0;
            quota = q.0 checks.1.0;
            pagination = p.0 checks.1.1.0;
            faults = f.0 checks.1.1.1.0;
          },
      λ fits.
          (flatten_empty (settings_checks s field)).1 (
            a.1 fits.authentication,
            (q.1 fits.quota, (p.1 fits.pagination, (f.1 fits.faults, tt))),
          ),
    )
