-- ===== src/Runner.antt =====
-- The candidates of the reference runner: `record_candidate` of crates/lab-core/src/runner.rs.
pub mod Scoped
use fqdn_forge.Base.{
  ℕ, String, Bool, true, false, Option, none, some, List, [], ◌∷◌, ◌++◌, Result, ok, err,
  if◌then◌else◌, saturating_add,
}
use fqdn_forge.BTreeMap.{BTreeMap}
use fqdn_forge.BTreeSet.{insert, contains}
use fqdn_forge.Model.Values.{DateTime, F64}
use fqdn_forge.Model.Scenario.{SourceKind}
use fqdn_forge.Model.Collector.{FilterReason, FilteredCandidate, Observation, CollectorRun}
use fqdn_forge.Egress.{Urls}
use fqdn_forge.Domain.{Host, HostParser, accept_candidate, host_from_url, domainish_tokens}

pub data ExtractKind : Type 0 where
  direct url tokens html csv text : ExtractKind

pub record ExtractedRecord : Type 0 where
  pub candidate : String
  pub record_id : Option String
  pub observed_at : Option DateTime
  pub tags : List String
  pub confidence : Option F64
  pub evidence : BTreeMap String

-- What `record_candidate` reads of the endpoint and of the scenario.
pub record CandidateContext : Type 0 where
  pub id : String
  pub source_kind : SourceKind
  pub source_label : Option String
  pub extract : Option ExtractKind
  pub root_domain : String
  pub include_root : Bool

-- What it writes: the run, and the names seen so far.
pub record Collected : Type 0 where
  pub run : CollectorRun
  pub seen : List String

-- The crate url, and `char::is_alphanumeric`.
pub record TextTools : Type 1 where
  pub urls : Urls
  pub host : urls.Url → Option Host
  pub parse : HostParser
  pub is_alphanumeric : ℕ → Bool

unfoldable pub filter_out : CandidateContext → String → FilterReason → Collected → Collected
filter_out c value reason s = record s {
  run = record s.run {
    filtered = s.run.filtered ++ record { value = value; reason = reason; source_name = c.id } ∷ [];
  };
}

abbrev pub or_id : String → Option String → String
or_id id none = id
or_id id (some label) = label

unfoldable pub observation : CandidateContext → ExtractedRecord → String → Observation
observation c r fqdn = record {
  fqdn = fqdn;
  source_kind = c.source_kind;
  source_name = or_id c.id c.source_label;
  record_id = r.record_id;
  observed_at = r.observed_at;
  tags = r.tags;
  confidence = r.confidence;
  evidence = r.evidence;
}

-- An accepted name; a repeated one is filtered as a duplicate and observed all the same.
unfoldable pub observe : CandidateContext → ExtractedRecord → String → Collected → Collected
unfolding observation filter_out insert contains
observe c r fqdn s =
    let noted =
      if contains s.seen fqdn
      then filter_out c fqdn FilterReason.duplicate s
      else record s { seen = insert fqdn s.seen } in
    record noted {
      run = record noted.run { observations = noted.run.observations ++ observation c r fqdn ∷ [] };
    }

abbrev pub judge_candidate :
    CandidateContext → ExtractedRecord → String → Result FilterReason String → Collected → Collected
judge_candidate c r value (ok fqdn) s = observe c r fqdn s
judge_candidate c r value (err reason) s = filter_out c value reason s

-- The loop over the candidates of a record.
unfoldable pub judge_candidates :
    HostParser → CandidateContext → ExtractedRecord → List String → Collected → Collected
unfolding accept_candidate observe filter_out
judge_candidates parse c r [] s = s
judge_candidates parse c r (value ∷ rest) s =
    judge_candidates parse c r rest
      (judge_candidate c r value (accept_candidate parse value c.root_domain c.include_root) s)

abbrev pub or_direct : Option ExtractKind → ExtractKind
or_direct none = ExtractKind.direct
or_direct (some kind) = kind

-- The candidates of a record, or the reason why there is none.
unfoldable pub candidates_of : TextTools → ExtractKind → String → Result FilterReason (List String)
unfolding host_from_url domainish_tokens
candidates_of x kind candidate = elim kind [
  | ExtractKind.url ↦ elim (host_from_url x.urls x.host x.parse candidate) [
    | ok host ↦ ok (host ∷ [])
    | err reason ↦ err reason
  ]
  | ExtractKind.tokens ↦ ok (domainish_tokens x.is_alphanumeric candidate)
  | ExtractKind.direct ↦ ok (candidate ∷ [])
  | ExtractKind.csv ↦ ok (candidate ∷ [])
  | ExtractKind.html ↦ ok (candidate ∷ [])
  | ExtractKind.text ↦ ok (candidate ∷ [])
]

abbrev pub with_candidates :
    HostParser
    → CandidateContext
    → ExtractedRecord
    → Result FilterReason (List String)
    → Collected
    → Collected
with_candidates parse c r (ok values) s = judge_candidates parse c r values s
with_candidates parse c r (err reason) s = filter_out c r.candidate reason s

-- The count of the parsed records.
unfoldable pub count_record : Collected → Collected
count_record s = record s {
  run = record s.run {
    metrics = record s.run.metrics {
      parsed_candidates = saturating_add s.run.metrics.parsed_candidates 1;
    };
  };
}

unfoldable pub record_candidate :
    TextTools → CandidateContext → ExtractedRecord → Collected → Collected
unfolding count_record candidates_of judge_candidates filter_out
record_candidate x c r s =
    with_candidates x.parse c r (candidates_of x (or_direct c.extract) r.candidate) (count_record s)

-- The records of an endpoint, in order.
unfoldable pub record_candidates :
    TextTools → CandidateContext → List ExtractedRecord → Collected → Collected
unfolding record_candidate
record_candidates x c [] s = s
record_candidates x c (r ∷ rest) s = record_candidates x c rest (record_candidate x c r s)
