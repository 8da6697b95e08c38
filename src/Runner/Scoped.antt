-- ===== src/Runner/Scoped.antt =====
-- What the runner observes lies in scope.
use fqdn_forge.Base.{
  String, ◌≡◌, ◌≢◌, refl, true, ◌⊎◌, inl, inr, List, [], ◌∷◌, Result, ok, err, All, All-append,
  Bool-cases, concat, trim,
}
use fqdn_forge.BTreeSet.{contains}
use fqdn_forge.Model.Collector.{FilterReason, Observation}
use fqdn_forge.Domain.{HostParser, accept_candidate}
use fqdn_forge.Domain.Names.{IsDomainName, normalize_domain-IsDomainName}
use fqdn_forge.Domain.Scope.{EndsWith, accept_candidate_iff}
use fqdn_forge.Runner.{
  ExtractedRecord, CandidateContext, Collected, TextTools, or_direct, filter_out, observation,
  observe, judge_candidate, judge_candidates, candidates_of, with_candidates, count_record,
  record_candidate, record_candidates,
}

-- A well-formed name that is the root domain, if that is included, or lies below it.
abbrev pub InScope : CandidateContext → Observation → Type 0
InScope c o =
    IsDomainName o.fqdn
    × (((o.fqdn ≡ c.root_domain) × (c.include_root ≡ true))
        ⊎ ((o.fqdn ≢ c.root_domain) × EndsWith o.fqdn (concat ("." ∷ c.root_domain ∷ []))))

abbrev pub Scoped : CandidateContext → Collected → Type 0
Scoped c s = All (InScope c) s.run.observations

module _ (c : CandidateContext) where
  filter_out-Scoped :
      (value : String) (reason : FilterReason) (s : Collected)
      → Scoped c s
      → Scoped c (filter_out c value reason s)
  unfolding filter_out
  filter_out-Scoped value reason s h = h

  observe-Scoped :
      (r : ExtractedRecord) (fqdn : String) (s : Collected)
      → InScope c (observation c r fqdn)
      → Scoped c s
      → Scoped c (observe c r fqdn s)
  unfolding observe filter_out
  observe-Scoped r fqdn s i h = elim (Bool-cases (contains s.seen fqdn)) [
    | inl e ↦ rw e (All-append (InScope c) s.run.observations (observation c r fqdn ∷ []) h (i, tt))
    | inr e ↦ rw e (All-append (InScope c) s.run.observations (observation c r fqdn ∷ []) h (i, tt))
  ]

  judge_candidate-Scoped :
      (parse : HostParser) (r : ExtractedRecord) (value : String) (o : Result FilterReason String)
      (s : Collected)
      → accept_candidate parse value c.root_domain c.include_root ≡ o
      → Scoped c s
      → Scoped c (judge_candidate c r value o s)
  unfolding observation
  judge_candidate-Scoped parse r value (ok fqdn) s e h =
      let t = (accept_candidate_iff parse value c.root_domain c.include_root fqdn).0 e in
      observe-Scoped r fqdn s (normalize_domain-IsDomainName parse (trim value) fqdn t.1, t.2) h
  judge_candidate-Scoped parse r value (err reason) s e h = filter_out-Scoped value reason s h

  judge_candidates-Scoped :
      (parse : HostParser) (r : ExtractedRecord) (values : List String) (s : Collected)
      → Scoped c s
      → Scoped c (judge_candidates parse c r values s)
  unfolding judge_candidates
  judge_candidates-Scoped parse r [] s h = h
  judge_candidates-Scoped parse r (value ∷ rest) s h =
      judge_candidates-Scoped parse r rest
        (judge_candidate c r value (accept_candidate parse value c.root_domain c.include_root) s)
        (judge_candidate-Scoped parse r value
          (accept_candidate parse value c.root_domain c.include_root) s refl h)

  with_candidates-Scoped :
      (parse : HostParser) (r : ExtractedRecord) (o : Result FilterReason (List String))
      (s : Collected)
      → Scoped c s
      → Scoped c (with_candidates parse c r o s)
  with_candidates-Scoped parse r (ok values) s h = judge_candidates-Scoped parse r values s h
  with_candidates-Scoped parse r (err reason) s h = filter_out-Scoped r.candidate reason s h

  record_candidate-Scoped :
      (x : TextTools) (r : ExtractedRecord) (s : Collected)
      → Scoped c s
      → Scoped c (record_candidate x c r s)
  unfolding record_candidate count_record
  record_candidate-Scoped x r s h =
      with_candidates-Scoped x.parse r (candidates_of x (or_direct c.extract) r.candidate)
        (count_record s) h

-- Whatever records an endpoint returns and however they are extracted, the runner observes only
-- well-formed names that are the root domain, where that is included, or lie below it, if what it had
-- observed before was so.
pub record_candidates-Scoped :
    (x : TextTools) (c : CandidateContext) (records : List ExtractedRecord) (s : Collected)
    → Scoped c s
    → Scoped c (record_candidates x c records s)
unfolding record_candidates
record_candidates-Scoped x c [] s h = h
record_candidates-Scoped x c (r ∷ rest) s h =
    record_candidates-Scoped x c rest (record_candidate x c r s) (record_candidate-Scoped c x r s h)
