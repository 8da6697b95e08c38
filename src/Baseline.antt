-- ===== src/Baseline.antt =====
-- The baselines of crates/lab-core/src/v14.rs: what is kept of a report, and the comparison with it.
pub mod Matched
use fqdn_forge.Base.{
  ℕ, String, Bool, true, false, Option, none, some, List, [], ◌∷◌, ◌++◌, map, length, ◌==◌, str_eq,
  if◌then◌else◌, decimal,
}
use fqdn_forge.BTreeMap.{BTreeMap, empty, get, insert}
use fqdn_forge.Model.Report.{RunReport}

pub data SoakPreset : Type 0 where
  smoke standard release : SoakPreset

abbrev pub preset_operations : SoakPreset → ℕ
preset_operations SoakPreset.smoke = 50
preset_operations SoakPreset.standard = 250
preset_operations SoakPreset.release = 1000

abbrev pub preset_concurrency : SoakPreset → ℕ
preset_concurrency SoakPreset.smoke = 2
preset_concurrency SoakPreset.standard = 4
preset_concurrency SoakPreset.release = 8

pub record SoakBaseline : Type 0 where
  pub preset : SoakPreset
  pub seed : ℕ
  pub minimum_operations : ℕ
  pub concurrency : ℕ
  pub action_counts : BTreeMap ℕ
  pub outcome_counts : BTreeMap ℕ
  pub invariants : BTreeMap Bool

pub record BaselineEntry : Type 0 where
  pub scenario_revision_digest : String
  pub fixture_digest : String
  pub semantic_fingerprint : String
  pub logical_metrics : BTreeMap ℕ

pub record Baseline : Type 0 where
  pub schema_version : String
  pub profile : String
  pub entries : BTreeMap BaselineEntry
  pub public_soak : Option SoakBaseline

pub record BaselineDifference : Type 0 where
  pub category : String
  pub field : String
  pub expected : String
  pub actual : String

pub record BaselineComparison : Type 0 where
  pub matched : Bool
  pub differences : List BaselineDifference

-- `collect` into a `BTreeMap`, and `BTreeMap::from`: the entries are inserted in order.
unfoldable pub insert_all : {V : Type 0} → BTreeMap V → List (String × V) → BTreeMap V
unfolding insert
insert_all m [] = m
insert_all m ((k, v) ∷ rest) = insert_all (insert k v m) rest

unfoldable pub metrics_of : RunReport → BTreeMap ℕ
unfolding insert_all
metrics_of report = insert_all empty (
    ("request_count", report.metrics.request_count)
    ∷ ("retry_count", report.metrics.retry_count)
    ∷ ("virtual_wait_ms", report.virtual_waited_ms)
    ∷ ("findings", length report.findings)
    ∷ ("audit_records", length report.requests)
    ∷ ("wire_bytes", report.compression.wire_bytes)
    ∷ ("decoded_bytes", report.compression.decoded_bytes)
    ∷ ("quota_decisions", report.quota.decisions)
    ∷ [])

unfoldable pub entry_of : RunReport → BaselineEntry
unfolding metrics_of
entry_of report = record {
  scenario_revision_digest = report.provenance.scenario_revision_digest;
  fixture_digest = report.provenance.fixture_digest;
  semantic_fingerprint = report.semantic_fingerprint;
  logical_metrics = metrics_of report;
}

unfoldable pub baseline_from_reports : String → List RunReport → Baseline
unfolding entry_of insert_all
baseline_from_reports profile reports = record {
  schema_version = "1.4.1";
  profile = profile;
  entries = insert_all empty (map (λ report. (report.scenario_id, entry_of report)) reports);
  public_soak = none;
}

unfoldable pub compare_field : String → String → String → String → List BaselineDifference
compare_field category field expected actual =
    if str_eq expected actual
    then []
    else record { category = category; field = field; expected = expected; actual = actual } ∷ []

abbrev pub or_zero : Option ℕ → ℕ
or_zero none = 0
or_zero (some n) = n

-- The loop over the metrics of the entry.
unfoldable pub compare_metrics : BTreeMap ℕ → List (String × ℕ) → List BaselineDifference
unfolding get
compare_metrics actual [] = []
compare_metrics actual ((key, expected) ∷ rest) =
    let found = or_zero (get key actual) in
    (if expected == found
      then []
      else record {
        category = "logical_metric";
        field = key;
        expected = decimal expected;
        actual = decimal found;
      }
        ∷ [])
    ++ compare_metrics actual rest

unfoldable pub entry_differences : BaselineEntry → RunReport → List BaselineDifference
unfolding compare_field compare_metrics metrics_of
entry_differences entry report =
    compare_field "provenance" "scenario_revision_digest" entry.scenario_revision_digest
      report.provenance.scenario_revision_digest
    ++ compare_field "provenance" "fixture_digest" entry.fixture_digest
        report.provenance.fixture_digest
    ++ compare_field "semantic" "semantic_fingerprint" entry.semantic_fingerprint
        report.semantic_fingerprint
    ++ compare_metrics (metrics_of report) entry.logical_metrics

abbrev pub is_empty_list : List BaselineDifference → Bool
is_empty_list [] = true
is_empty_list (d ∷ ds) = false

abbrev pub compare_entry : RunReport → Option BaselineEntry → BaselineComparison
compare_entry report none = record {
  matched = false;
  differences =
      record {
        category = "added";
        field = "scenario_id";
        expected = "present in baseline";
        actual = report.scenario_id;
      }
      ∷ [];
}
compare_entry report (some entry) = record {
  matched = is_empty_list (entry_differences entry report);
  differences = entry_differences entry report;
}

unfoldable pub compare_baseline : Baseline → RunReport → BaselineComparison
unfolding entry_differences get
compare_baseline baseline report = compare_entry report (get report.scenario_id baseline.entries)
