-- ===== src/Baseline/Matched.antt =====
-- When a report matches a baseline.
use fqdn_forge.Base.{
  ℕ, String, ◌≡◌, ◌↔◌, refl, sym, ap, subst, ◌∙◌, inl, inr, true, false≢true, Option, none, some,
  List, [], ◌∷◌, ◌++◌, map, arith, All, ◌==◌, ==_iff, length, str_eq, eq_iff, Bool-cases, of_some,
  map-append, Bool, false, if◌then◌else◌,
}
use fqdn_forge.BTreeMap.{BTreeMap, empty, get, insert, get-insert}
use fqdn_forge.Model.Report.{RunReport}
use fqdn_forge.Baseline.{
  BaselineEntry, Baseline, BaselineDifference, insert_all, metrics_of, entry_of,
  baseline_from_reports, compare_field, or_zero, compare_metrics, entry_differences, is_empty_list,
  compare_entry, compare_baseline,
}

-- The metric of a report by its name; 0 for a name that is none.
abbrev pub metric : RunReport → String → ℕ
metric report key =
    if str_eq "audit_records" key
    then length report.requests
    else if str_eq "decoded_bytes" key
    then report.compression.decoded_bytes
    else if str_eq "findings" key
    then length report.findings
    else if str_eq "quota_decisions" key
    then report.quota.decisions
    else if str_eq "request_count" key
    then report.metrics.request_count
    else if str_eq "retry_count" key
    then report.metrics.retry_count
    else if str_eq "virtual_wait_ms" key
    then report.virtual_waited_ms
    else if str_eq "wire_bytes" key
    then report.compression.wire_bytes
    else 0

or_zero-if :
    (b : Bool) (n m : ℕ) (o : Option ℕ)
    → or_zero o ≡ m
    → or_zero (if b then some n else o) ≡ (if b then n else m)
or_zero-if true n m o h = refl
or_zero-if false n m o h = h

or_zero-get :
    (report : RunReport) (key : String) → or_zero (get key (metrics_of report)) ≡ metric report key
unfolding metrics_of get insert
or_zero-get report key = or_zero-if (str_eq "audit_records" key) _ _ _ (
    or_zero-if (str_eq "decoded_bytes" key) _ _ _ (
      or_zero-if (str_eq "findings" key) _ _ _ (
        or_zero-if (str_eq "quota_decisions" key) _ _ _ (
          or_zero-if (str_eq "request_count" key) _ _ _ (
            or_zero-if (str_eq "retry_count" key) _ _ _ (
              or_zero-if (str_eq "virtual_wait_ms" key) _ _ _
                (or_zero-if (str_eq "wire_bytes" key) _ _ none refl)))))))

-- The report has what the entry keeps: the digests, the fingerprint, and the value of each metric that
-- the entry lists.
pub record Fits (entry : BaselineEntry) (report : RunReport) : Type 0 where
  pub revision : entry.scenario_revision_digest ≡ report.provenance.scenario_revision_digest
  pub fixture : entry.fixture_digest ≡ report.provenance.fixture_digest
  pub fingerprint : entry.semantic_fingerprint ≡ report.semantic_fingerprint
  pub metrics : All (λ m. m.1 ≡ metric report m.0) entry.logical_metrics

no_differences : (xs ys : List BaselineDifference) → (xs ++ ys ≡ []) ↔ ((xs ≡ []) × (ys ≡ []))
no_differences [] ys = ((λ h. (refl, h)), λ h. h.1)
no_differences (x ∷ xs) ys = ((λ h. absurd (cc h)), λ h. absurd (cc h.0))

compare_field_iff :
    (category field expected actual : String)
    → (compare_field category field expected actual ≡ []) ↔ (expected ≡ actual)
unfolding compare_field
compare_field_iff category field expected actual = elim (Bool-cases (str_eq expected actual)) [
  | inl e ↦ rw e ((λ h. (eq_iff expected actual).0 e), λ h. refl)
  | inr e ↦
      rw e ((λ h. absurd (cc h)), λ h. absurd (false≢true (sym e ∙ (eq_iff expected actual).1 h)))
]

compare_metrics_iff :
    (report : RunReport) (expected : List (String × ℕ))
    → (compare_metrics (metrics_of report) expected ≡ [])
      ↔ All (λ m. m.1 ≡ metric report m.0) expected
unfolding compare_metrics
compare_metrics_iff report [] = ((λ h. tt), λ h. refl)
compare_metrics_iff report ((key, n) ∷ rest) =
    let ih = compare_metrics_iff report rest in
    let value = or_zero-get report key in
    elim (Bool-cases (n == or_zero (get key (metrics_of report)))) [
      | inl e ↦ rw e (
        (λ h. ((==_iff n (or_zero (get key (metrics_of report)))).0 e ∙ value, ih.0 h)),
        λ h. ih.1 h.1,
      )
      | inr e ↦ rw e (
        (λ h. absurd (cc h)),
        λ h. absurd (
            false≢true
              (sym e ∙ (==_iff n (or_zero (get key (metrics_of report)))).1 (h.0 ∙ sym value))),
      )
    ]

is_empty_list_iff : (ds : List BaselineDifference) → (is_empty_list ds ≡ true) ↔ (ds ≡ [])
is_empty_list_iff [] = ((λ h. refl), λ h. refl)
is_empty_list_iff (d ∷ ds) = ((λ h. absurd (false≢true h)), λ h. absurd (cc h))

no_differences_of_four :
    (a b c d : List BaselineDifference)
    → (a ++ b ++ c ++ d ≡ []) ↔ ((a ≡ []) × (b ≡ []) × (c ≡ []) × (d ≡ []))
no_differences_of_four a b c d =
    let one = no_differences (a ++ b ++ c) d in
    let two = no_differences (a ++ b) c in
    let three = no_differences a b in
    (
      (λ h. let x = one.0 h in let y = two.0 x.0 in let z = three.0 y.0 in (z.0, z.1, y.1, x.1)),
      (λ t. one.1 (two.1 (three.1 (t.0, t.1), t.2), t.3)),
    )

entry_differences_iff :
    (entry : BaselineEntry) (report : RunReport)
    → (entry_differences entry report ≡ []) ↔ Fits entry report
unfolding entry_differences
entry_differences_iff entry report =
    let a =
      compare_field "provenance" "scenario_revision_digest" entry.scenario_revision_digest
        report.provenance.scenario_revision_digest in
    let b =
      compare_field "provenance" "fixture_digest" entry.fixture_digest
        report.provenance.fixture_digest in
    let c =
      compare_field "semantic" "semantic_fingerprint" entry.semantic_fingerprint
        report.semantic_fingerprint in
    let d = compare_metrics (metrics_of report) entry.logical_metrics in
    let four = no_differences_of_four a b c d in
    let revision =
      compare_field_iff "provenance" "scenario_revision_digest" entry.scenario_revision_digest
        report.provenance.scenario_revision_digest in
    let fixture =
      compare_field_iff "provenance" "fixture_digest" entry.fixture_digest
        report.provenance.fixture_digest in
    let fingerprint =
      compare_field_iff "semantic" "semantic_fingerprint" entry.semantic_fingerprint
        report.semantic_fingerprint in
    let metrics = compare_metrics_iff report entry.logical_metrics in
    (
      (λ h.
          let t = four.0 h in
          record {
            revision = revision.0 t.0;
            fixture = fixture.0 t.1;
            fingerprint = fingerprint.0 t.2;
            metrics = metrics.0 t.3;
          }),
      (λ f. four.1 (
        revision.1 f.revision,
        fixture.1 f.fixture,
        fingerprint.1 f.fingerprint,
        metrics.1 f.metrics,
      )),
    )

compare_entry_iff :
    (report : RunReport) (o : Option BaselineEntry)
    → ((compare_entry report o).matched ≡ true)
      ↔ ((entry : BaselineEntry) × (o ≡ some entry) × Fits entry report)
compare_entry_iff report none = ((λ h. absurd (false≢true h)), λ h. absurd (cc h.1))
compare_entry_iff report (some entry) =
    let empty_iff = is_empty_list_iff (entry_differences entry report) in
    let fits = entry_differences_iff entry report in
    (
      (λ h. (entry, refl, fits.0 (empty_iff.0 h))),
      (λ h. empty_iff.1 (fits.1 (subst (λ e. Fits e report) (sym (of_some h.1)) h.2))),
    )

-- A report matches a baseline exactly when the baseline has an entry for its scenario with the digests
-- and the fingerprint of the report, in which each metric that is listed has the value of that name in
-- the report, 0 for a name that is none. A metric that the entry does not list is not compared.
pub compare_baseline-matched_iff :
    (baseline : Baseline) (report : RunReport)
    → ((compare_baseline baseline report).matched ≡ true) ↔ (
        (entry : BaselineEntry) × (get report.scenario_id baseline.entries ≡ some entry)
        × Fits entry report)
unfolding compare_baseline
compare_baseline-matched_iff baseline report =
    compare_entry_iff report (get report.scenario_id baseline.entries)

insert_all-last :
    {V : Type 0} (m : BTreeMap V) (xs : List (String × V)) (k : String) (v : V)
    → get k (insert_all m (xs ++ (k, v) ∷ [])) ≡ some v
unfolding insert_all
insert_all-last m [] k v = ground (arith, get-insert k k v m, eq_iff k k)
insert_all-last m ((j, w) ∷ xs) k v = insert_all-last (insert j w m) xs k v

entry_of-Fits : (report : RunReport) → Fits (entry_of report) report
unfolding entry_of metrics_of get insert
entry_of-Fits report = record {
  revision = refl;
  fixture = refl;
  fingerprint = refl;
  metrics = (refl, (refl, (refl, (refl, (refl, (refl, (refl, (refl, tt))))))));
}

-- A report matches the baseline that was made of it and of any reports before it.
pub baseline_from_reports-matches :
    (profile : String) (reports : List RunReport) (report : RunReport)
    → (compare_baseline (baseline_from_reports profile (reports ++ report ∷ [])) report).matched
      ≡ true
unfolding baseline_from_reports
baseline_from_reports-matches profile reports report =
    let keep : RunReport → String × BaselineEntry = λ r. (r.scenario_id, entry_of r) in
    let split = map-append keep reports (report ∷ []) in
    (compare_baseline-matched_iff (baseline_from_reports profile (reports ++ report ∷ [])) report).1
      (
        entry_of report,
        ap (λ es. get report.scenario_id (insert_all empty es)) split
            ∙ insert_all-last empty (map keep reports) report.scenario_id (entry_of report),
        entry_of-Fits report,
      )
