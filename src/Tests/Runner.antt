-- ===== src/Tests/Runner.antt =====
-- Records of an endpoint whose candidates are tokens of a text.
use fqdn_forge.Base.{
  String, ◌≡◌, refl, false, none, some, List, [], ◌∷◌, is_ascii_alphanumeric, map,
}
use fqdn_forge.BTreeSet.{contains, insert}
use fqdn_forge.Model.Scenario.{SourceKind}
use fqdn_forge.Domain.{Host}
use fqdn_forge.Runner.{
  ExtractKind, ExtractedRecord, CandidateContext, Collected, TextTools, record_candidates,
}
use fqdn_forge.Runner.Scoped.{Scoped, record_candidates-Scoped}
use fqdn_forge.Tests.Egress.{urls}
use fqdn_forge.Tests.Judge.{no_metrics}

abbrev tools : TextTools
tools = record {
  urls = urls;
  host = λ u. none;
  parse = λ t. some (Host.domain t);
  is_alphanumeric = is_ascii_alphanumeric;
}

abbrev context : CandidateContext
context = record {
  id = "code";
  source_kind = SourceKind.archive;
  source_label = none;
  extract = some ExtractKind.tokens;
  root_domain = "acme.test";
  include_root = false;
}

abbrev extracted : String → ExtractedRecord
extracted text = record {
  candidate = text;
  record_id = none;
  observed_at = none;
  tags = [];
  confidence = none;
  evidence = [];
}

abbrev nothing : Collected
nothing = record {
  run = record {
    observations = [];
    filtered = [];
    source_statuses = [];
    virtual_waited_ms = 0;
    metrics = no_metrics;
  };
  seen = [];
}

abbrev records : List ExtractedRecord
records = extracted "host api.acme.test, see example.org" ∷ extracted "api.acme.test" ∷ []

observed :
    map (λ o. o.fqdn) (record_candidates tools context records nothing).run.observations
    ≡ "api.acme.test" ∷ "api.acme.test" ∷ []
unfolding record_candidates contains insert
observed = refl

record_candidates-Scoped_example : Scoped context (record_candidates tools context records nothing)
record_candidates-Scoped_example = record_candidates-Scoped tools context records nothing tt
