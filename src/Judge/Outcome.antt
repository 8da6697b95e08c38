-- ===== src/Judge/Outcome.antt =====
-- What the verdict means: the failures that are reported, and the sets of names.
use fqdn_forge.Base.{
  String, ◌≡◌, refl, ◌↔◌, Bool, true, false, List, [], ◌++◌, arith, &&_iff, inl, inr, false≢true,
  sym, Bool-cases, leb, length, In, is_none_or,
}
use fqdn_forge.BTreeSet.{
  collect, is_subset, same_elements, same_elements-collect, is_subset-collect,
}
use fqdn_forge.Model.Collector.{CollectorRun}
use fqdn_forge.Model.Truth.{Truth}
use fqdn_forge.Model.Report.{AssertionResults, ReportStatus}
use fqdn_forge.Judge.Input.{JudgeInput}
use fqdn_forge.Judge.Checks.{Floats}
use fqdn_forge.Judge.Verdict.{
  Build, unless, results, passed, verdict, failures, fqdns_pass, observed,
}

unless_iff :
    (b : Bool) (t : String) (rest : List String)
    → (unless b t ++ rest ≡ []) ↔ ((b ≡ true) × (rest ≡ []))
unless_iff true t rest = (λ h. (refl, h), λ h. h.1)
unless_iff false t rest = (λ h. cc, λ h. cc)

failures_empty_iff :
    (b : Build) (input : JudgeInput) (r : AssertionResults)
    → r.submission_consistency ≡ true
    → (passed r ≡ true) ↔ (failures b input r ≡ [])
unfolding passed failures
failures_empty_iff b input r h = ground arith

-- The judge passes a run exactly when it reports no failure.
pub verdict-passed_iff :
    (x : Floats) (b : Build) (input : JudgeInput)
    → (verdict (results x input) ≡ ReportStatus.passed) ↔ (failures b input (results x input) ≡ [])
unfolding verdict
verdict-passed_iff x b input =
    let all_pass = failures_empty_iff b input (results x input) (unfold results in refl) in
    ground (arith, all_pass)

-- Enough distinct names are among the observations, however often each of them is seen.
abbrev enough : CollectorRun → Truth → Bool
enough run truth =
    is_none_or truth.minimum_unique_fqdns (λ n. leb n (length (collect (observed run))))

abbrev pub HasEnough : CollectorRun → Truth → Type 0
HasEnough run truth = enough run truth ≡ true

-- The names pass exactly when every expected name was observed, no other name was where no other
-- is allowed, and enough distinct names were: the order and the repetitions do not matter.
pub fqdns_pass_iff :
    (run : CollectorRun) (truth : Truth)
    → (fqdns_pass run truth ≡ true) ↔ (
        ((a : String) → In a truth.expected_fqdns → In a (observed run))
        × ((truth.allow_additional_fqdns ≡ false)
            → (a : String) → In a (observed run)
            → In a truth.expected_fqdns)
        × HasEnough run truth)
unfolding fqdns_pass
fqdns_pass_iff run truth = elim (Bool-cases truth.allow_additional_fqdns) [
  | inl e ↦
      let names = is_subset-collect truth.expected_fqdns (observed run) in
      let both =
        &&_iff (is_subset (collect truth.expected_fqdns) (collect (observed run)))
          (enough run truth) in
      rw e (
        λ h. (names.0 (both.0 h).0, (λ no. absurd (false≢true (sym no))), (both.0 h).1),
        λ t. both.1 (names.1 t.0, t.2),
      )
  | inr e ↦
      let names = same_elements-collect (observed run) truth.expected_fqdns in
      let both =
        &&_iff (same_elements (collect (observed run)) (collect truth.expected_fqdns))
          (enough run truth) in
      rw e (
        λ h. ((λ a. (names.0 (both.0 h).0 a).1), (λ _ a. (names.0 (both.0 h).0 a).0), (both.0 h).1),
        λ t. both.1 (names.1 (λ a. (t.1 refl a, t.0 a)), t.2),
      )
]
