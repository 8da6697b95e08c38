-- ===== src/Plan/Passed.antt =====
-- When a run of a plan passes.
use fqdn_forge.Base.{
  ℕ, String, ◌≡◌, ◌↔◌, refl, sym, ap, subst, of_some, ◌∙◌, inl, inr, Bool, true, false, not,
  false≢true, Option, none, some, List, [], ◌∷◌, ◌++◌, arith, ltb, str_eq, eq_iff, if◌then◌else◌,
  any, keep, map, In, find, filter_map, All, Bool-cases, ◌==◌, before,
}
use fqdn_forge.BTreeMap.{BTreeMap, insert, values}
use fqdn_forge.Plan.Definition.{PlanSource, PlanExecutionMode, ExperimentPlan}
use fqdn_forge.Plan.Run.{PlanRun, PlanRunAuditEntry}
use fqdn_forge.Plan.Simulation.{source_settings, run_source}
use fqdn_forge.Plan.Execution.{
  Clock, plan_truth, succeeded, Simulation, audit_entry, missing_fqdns, simulate_source,
  simulate_each, no_simulation, enabled_sources, simulate_sources,
}
use fqdn_forge.Plan.Audited.{Generated, simulate_sources-audit, missed-Generated}
use fqdn_forge.Plan.Report.{
  Execution, wrong_count, expected_request_failures, partial_failures, all_failures, status_of,
  execute_plan_with_mode, report_of,
}

module _ {A : Type 0} where
  append-eq-empty : (xs ys : List A) → (xs ++ ys ≡ []) ↔ ((xs ≡ []) × (ys ≡ []))
  append-eq-empty [] ys = ((λ h. (refl, h)), λ h. h.1)
  append-eq-empty (x ∷ xs) ys = ((λ h. absurd (cc h)), λ h. absurd (cc h.0))

  All-append_one : (P : A → Type 0) (xs : List A) (y : A) → All P (xs ++ y ∷ []) ↔ (All P xs × P y)
  All-append_one P [] y = ((λ h. (tt, h.0)), λ h. (h.1, tt))
  All-append_one P (x ∷ xs) y =
      let ih = All-append_one P xs y in
      ((λ h. ((h.0, (ih.0 h.1).0), (ih.0 h.1).1)), λ h. (h.0.0, ih.1 (h.0.1, h.1)))

  filter_map-eq-empty :
      {B : Type 0} (f : A → Option B) (xs : List A)
      → (filter_map f xs ≡ []) ↔ All (λ a. f a ≡ none) xs
  filter_map-eq-empty f [] = ((λ h. tt), λ h. refl)
  filter_map-eq-empty {B = B} f (x ∷ xs) = one (f x) (filter_map-eq-empty f xs)
    where
      one :
          (o : Option B)
          → (filter_map f xs ≡ []) ↔ All (λ a. f a ≡ none) xs
          → (elim o [ none ↦ filter_map f xs | some b ↦ b ∷ filter_map f xs ] ≡ [])
            ↔ ((o ≡ none) × All (λ a. f a ≡ none) xs)
      one none ih = ((λ h. (refl, ih.0 h)), λ h. ih.1 h.1)
      one (some b) ih = ((λ h. absurd (cc h)), λ h. absurd (cc h.0))

module _ {A : Type 0} {P Q : A → Type 0} (f : (a : A) → P a → Q a) where
  All-imp : (xs : List A) → All P xs → All Q xs
  All-imp [] h = tt
  All-imp (x ∷ xs) h = (f x h.0, All-imp xs h.1)

values-insert :
    (P : String → Type 0) (k v : String) (m : BTreeMap String)
    → P v
    → All P (values m)
    → All P (values (insert k v m))
unfolding insert
values-insert P k v [] p h = (p, tt)
values-insert P k v ((j, w) ∷ m) p h = elim (Bool-cases (str_eq j k)) [
  | inl e ↦ rw e (p, h.1)
  | inr e ↦ elim (Bool-cases (before k j)) [
    | inl b ↦ rw (e, b) (p, h)
    | inr b ↦ rw (e, b) (h.0, values-insert P k v m p h.1)
  ]
]

-- An audit entry, or a status, of a source that succeeded.
abbrev EntryOk : PlanRunAuditEntry → Type 0
EntryOk entry = succeeded entry.status ≡ true

abbrev StatusOk : String → Type 0
StatusOk status = succeeded status ≡ true

-- What the loop over the sources keeps.
record Agrees (s : Simulation) : Type 0 where
  failures : (s.failures ≡ []) ↔ All EntryOk s.audit
  statuses : All EntryOk s.audit → All StatusOk (values s.statuses)

simulate_source-Agrees :
    (clock : Clock) (plan : ExperimentPlan) (source : PlanSource) (s : Simulation)
    → Agrees s
    → Agrees (simulate_source clock plan source s)
unfolding simulate_source audit_entry
simulate_source-Agrees clock plan source s a =
    let r = run_source (source_settings plan source) s.filtered in
    let entry = audit_entry clock plan source (source_settings plan source) r in
    let both = All-append_one EntryOk s.audit entry in
    elim (Bool-cases (succeeded r.status)) [
      | inl e ↦ record {
        failures = rw e ((λ h. both.1 (a.failures.0 h, e)), λ h. a.failures.1 (both.0 h).0);
        statuses =
            λ h. values-insert StatusOk source.id r.status s.statuses e (a.statuses (both.0 h).0);
      }
      | inr e ↦ record {
        failures = rw e (
          (λ h. absurd (cc ((append-eq-empty s.failures _).0 h).1)),
          λ h. absurd (false≢true (sym e ∙ (both.0 h).1)),
        );
        statuses = λ h. absurd (false≢true (sym e ∙ (both.0 h).1));
      }
    ]

simulate_each-Agrees :
    (clock : Clock) (plan : ExperimentPlan) (sources : List PlanSource) (s : Simulation)
    → Agrees s
    → Agrees (simulate_each clock plan sources s)
unfolding simulate_each
simulate_each-Agrees clock plan [] s a = a
simulate_each-Agrees clock plan (source ∷ rest) s a =
    simulate_each-Agrees clock plan rest (simulate_source clock plan source s)
      (simulate_source-Agrees clock plan source s a)

any-fails :
    (statuses : List String)
    → All StatusOk statuses
    → any (λ status. not (succeeded status)) statuses ≡ false
any-fails [] h = refl
any-fails (t ∷ ts) h = rw h.0 (any-fails ts h.1)

no_partial :
    (allow : Bool) (statuses : BTreeMap String)
    → All StatusOk (values statuses)
    → partial_failures allow statuses ≡ []
unfolding partial_failures
no_partial true statuses h = refl
no_partial false statuses h = rw (any-fails (values statuses) h) refl

-- Each source of the audit that has an expected number of requests made that number.
abbrev pub CountsMet : BTreeMap ℕ → List PlanRunAuditEntry → Type 0
CountsMet expected audit =
    All
      (λ e.
        (entry : PlanRunAuditEntry)
        → find (λ a. str_eq a.source_id e.0) audit ≡ some entry
        → entry.request_count ≡ e.1)
      expected

wrong_count_iff :
    (source : String) (expected : ℕ) (o : Option PlanRunAuditEntry)
    → (wrong_count source expected o ≡ none)
      ↔ ((entry : PlanRunAuditEntry) → o ≡ some entry → entry.request_count ≡ expected)
wrong_count_iff source expected none = ((λ h entry e. absurd (cc e)), λ h. refl)
wrong_count_iff source expected (some entry) = elim (Bool-cases (entry.request_count == expected)) [
  | inl e ↦ rw e (
    (λ h other m. subst (λ o. o.request_count ≡ expected) (of_some m) (ground (arith, e))),
    λ h. refl,
  )
  | inr e ↦ rw e ((λ h. absurd (cc h)), λ h. absurd (ground (arith, e, h entry refl)))
]

expected_request_failures_iff :
    (expected : BTreeMap ℕ) (audit : List PlanRunAuditEntry)
    → (expected_request_failures expected audit ≡ []) ↔ CountsMet expected audit
unfolding expected_request_failures
expected_request_failures_iff expected audit =
    let at = λ (e : String × ℕ). find (λ a. str_eq a.source_id e.0) audit in
    let empty_iff = filter_map-eq-empty (λ e. wrong_count e.0 e.1 (at e)) expected in
    (
      (λ h. All-imp (λ e. (wrong_count_iff e.0 e.1 (at e)).0) expected (empty_iff.0 h)),
      (λ h. empty_iff.1 (All-imp (λ e. (wrong_count_iff e.0 e.1 (at e)).1) expected h)),
    )

status_of_iff : (failures : List String) → (status_of failures ≡ "passed") ↔ (failures ≡ [])
status_of_iff [] = ((λ h. refl), λ h. refl)
status_of_iff (f ∷ fs) =
    ((λ h. absurd (false≢true (ap (λ t. str_eq t "passed") h))), λ h. absurd (cc h))

-- The reasons why a run passes.
pub record Passes (plan : ExperimentPlan) (run : PlanRun) : Type 0 where
  pub sources : All (λ entry. entry.status ≡ "succeeded") run.audit
  pub findings : run.report.missed_findings ≡ 0
  pub found : (a : String) → In a plan.expected_behaviour.expected_fqdns → Generated plan a
  pub requests : CountsMet plan.expected_behaviour.expected_requests_per_source run.audit

simulated-Agrees :
    (clock : Clock) (plan : ExperimentPlan)
    → Agrees (simulate_each clock plan (enabled_sources plan) (no_simulation plan))
simulated-Agrees clock plan =
    simulate_each-Agrees clock plan (enabled_sources plan) (no_simulation plan)
      (record { failures = ((λ h. tt), λ h. refl); statuses = λ h. tt })

-- The failures of the simulation, with the line on the missing names.
missed_iff :
    (failures : List String) (missed : ℕ)
    → ((if ltb 0 missed then failures ++ missing_fqdns missed ∷ [] else failures) ≡ [])
      ↔ ((failures ≡ []) × (missed ≡ 0))
missed_iff failures missed = elim (Bool-cases (ltb 0 missed)) [
  | inl e ↦ rw e (
    (λ h. absurd (cc ((append-eq-empty failures _).0 h).1)),
    λ h. absurd (ground (arith, e, h.1)),
  )
  | inr e ↦ rw e ((λ h. (h, ground (arith, e))), λ h. h.0)
]

status-passed_iff :
    (x : Execution) (plan : ExperimentPlan) (replayed_from : Option String)
    (mode : PlanExecutionMode)
    → ((execute_plan_with_mode x plan replayed_from mode).report.status ≡ "passed")
      ↔ Passes plan (execute_plan_with_mode x plan replayed_from mode)
unfolding execute_plan_with_mode report_of all_failures simulate_sources partial_failures
status-passed_iff x plan replayed_from mode =
    let truth = plan_truth plan in
    let s = simulate_sources x.clock plan truth in
    let loop = simulate_each x.clock plan (enabled_sources plan) (no_simulation plan) in
    let agrees = simulated-Agrees x.clock plan in
    let all =
      append-eq-empty
        (s.failures
          ++ expected_request_failures plan.expected_behaviour.expected_requests_per_source s.audit)
        (partial_failures plan.expected_behaviour.allow_partial_success s.statuses) in
    let two =
      append-eq-empty s.failures
        (expected_request_failures plan.expected_behaviour.expected_requests_per_source s.audit) in
    let missed = missed_iff loop.failures s.missed in
    let counts =
      expected_request_failures_iff plan.expected_behaviour.expected_requests_per_source s.audit in
    (
      (λ h.
          let parts = two.0 (all.0 ((status_of_iff (all_failures plan s)).0 h)).0 in
          let found = missed.0 parts.0 in
          record {
            sources =
                All-imp (λ entry e. (eq_iff entry.status "succeeded").0 e) s.audit
                  (agrees.failures.0 found.0);
            findings = found.1;
            found = missed-Generated x.clock plan found.1;
            requests = counts.0 parts.1;
          }),
      (λ p.
          let good = All-imp (λ entry e. (eq_iff entry.status "succeeded").1 e) s.audit p.sources in
          (status_of_iff (all_failures plan s)).1 (
            all.1 (
              two.1 (missed.1 (agrees.failures.1 good, p.findings), counts.1 p.requests),
              no_partial plan.expected_behaviour.allow_partial_success s.statuses
                  (agrees.statuses good),
            ))),
    )

-- The audit of a run has one entry for each enabled source, in the order of the plan. The run passes
-- exactly when the simulation of every one of them succeeded, no expected name is missing, which
-- takes that each is the first generated name of an enabled source, and each of them with an expected
-- number of requests made that number; a disabled source has no entry and its number is not looked
-- at. Whether the plan allows partial success makes no difference.
pub execute_plan_with_mode-passed_iff :
    (x : Execution) (plan : ExperimentPlan) (replayed_from : Option String)
    (mode : PlanExecutionMode)
    → (map (λ e. e.source_id) (execute_plan_with_mode x plan replayed_from mode).audit
        ≡ map (λ s. s.id) (keep (λ s. s.enabled) plan.sources))
      × (((execute_plan_with_mode x plan replayed_from mode).report.status ≡ "passed")
          ↔ Passes plan (execute_plan_with_mode x plan replayed_from mode))
unfolding execute_plan_with_mode
execute_plan_with_mode-passed_iff x plan replayed_from mode = (
  simulate_sources-audit x.clock plan (plan_truth plan),
  status-passed_iff x plan replayed_from mode,
)
