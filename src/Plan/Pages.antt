-- ===== src/Plan/Pages.antt =====
-- How far the simulation of a source goes.
use fqdn_forge.Base.{
  ℕ, zero, suc, ◌+◌, ◌≤◌, ◌<◌, String, ◌≡◌, ◌⊎◌, inl, inr, refl, subst, of_some, true, false, ◌&&◌,
  Option, none, some, arith, ◌==◌, ltb, str_eq, if◌then◌else◌, u64_max, Bool-cases, is_some,
}
use fqdn_forge.Plan.Settings.{
  PlanQuota, QuotaExhaustedBehaviour, PlanPagination, PlanFaultKind, PlanFault,
}
use fqdn_forge.Plan.Simulation.{
  SourceSettings, SourceRun, Flow, follow, page_count, is_at, is_status429, send_page, limit_page,
  exhausted, paginate, strike, with_outcome, with_fault, fault_at, fault_outcome, request_page,
  request_pages, fresh_run, refuses_key, run_source,
}

-- A source that succeeded has no failure, and one that did not has a message.
abbrev pub Coherent : SourceRun → Type 0
Coherent r =
    ((r.status ≡ "succeeded") × (r.failure ≡ none))
    ⊎ ((str_eq r.status "succeeded" ≡ false) × (is_some r.failure ≡ true))

-- The counts of a run after `n` requests.
abbrev pub Counted : PlanQuota → ℕ → SourceRun → Type 0
Counted q n r = (r.request_count ≡ n) × (r.quota_consumed ≡ (if q.consume_per_page then n else 0))

-- A run that still succeeds.
abbrev Succeeds : SourceRun → Type 0
Succeeds r = (r.status ≡ "succeeded") × (r.failure ≡ none)

-- After the `n`-th request: on, within the budget, or at the end.
Reaches : PlanQuota → ℕ → Flow → Type 0
Reaches q n (Flow.continue r) =
    Counted q n r × Succeeds r × ((q.consume_per_page ≡ true) → n ≤ q.request_budget)
Reaches q n (Flow.break r) = Counted q n r × Coherent r

send_page-Counted :
    (q : PlanQuota) (n : ℕ) (r : SourceRun)
    → n < u64_max
    → Counted q n r
    → Counted q (suc n) (send_page q r)
unfolding send_page
send_page-Counted q n r small h = ground arith

limit_page-Counted :
    (q : PlanQuota) (n page : ℕ) (r : SourceRun) → Counted q n r → Counted q n (limit_page q page r)
unfolding limit_page
limit_page-Counted q n page r h = elim (Bool-cases (is_at q.rate_limit_on_request page)) [
  | inl e ↦ rw e h
  | inr e ↦ rw e h
]

limit_page-Succeeds :
    (q : PlanQuota) (page : ℕ) (r : SourceRun)
    → Succeeds r
    → Succeeds (limit_page q page (send_page q r))
unfolding limit_page send_page
limit_page-Succeeds q page r h = elim (Bool-cases (is_at q.rate_limit_on_request page)) [
  | inl e ↦ rw e h
  | inr e ↦ rw e h
]

exhausted-Reaches :
    (q : PlanQuota) (n : ℕ) (b : QuotaExhaustedBehaviour) (r : SourceRun)
    → Counted q n r
    → Succeeds r
    → Reaches q n (Flow.break (exhausted b r))
unfolding exhausted Reaches
exhausted-Reaches q n QuotaExhaustedBehaviour.empty_result r h k = (h, inl k)
exhausted-Reaches q n QuotaExhaustedBehaviour.rate_limited r h k = (h, inr (refl, refl))
exhausted-Reaches q n QuotaExhaustedBehaviour.forbidden r h k = (h, inr (refl, refl))

fails :
    {p o : String × String}
    → some p ≡ some o
    → str_eq p.0 "succeeded" ≡ false
    → str_eq o.0 "succeeded" ≡ false
fails h e = subst (λ q. str_eq q.0 "succeeded" ≡ false) (of_some h) e

-- No fault ends a source with success.
fault_outcome_fails :
    (kind : PlanFaultKind) (o : String × String)
    → fault_outcome kind ≡ some o
    → str_eq o.0 "succeeded" ≡ false
unfolding fault_outcome
fault_outcome_fails PlanFaultKind.slow_response o h = fails h refl
fault_outcome_fails PlanFaultKind.timeout o h = fails h refl
fault_outcome_fails PlanFaultKind.disconnect o h = fails h refl
fault_outcome_fails PlanFaultKind.status500 o h = fails h refl
fault_outcome_fails PlanFaultKind.status502 o h = fails h refl
fault_outcome_fails PlanFaultKind.status503 o h = fails h refl
fault_outcome_fails PlanFaultKind.status401 o h = fails h refl
fault_outcome_fails PlanFaultKind.status403 o h = fails h refl
fault_outcome_fails PlanFaultKind.status404 o h = fails h refl
fault_outcome_fails PlanFaultKind.status429 o h = fails h refl
fault_outcome_fails PlanFaultKind.empty_response o h = cc
fault_outcome_fails PlanFaultKind.no_content o h = cc
fault_outcome_fails PlanFaultKind.invalid_json o h = fails h refl
fault_outcome_fails PlanFaultKind.truncated_json o h = fails h refl
fault_outcome_fails PlanFaultKind.html_instead_of_json o h = fails h refl
fault_outcome_fails PlanFaultKind.wrong_content_type o h = fails h refl
fault_outcome_fails PlanFaultKind.wrong_content_length o h = fails h refl
fault_outcome_fails PlanFaultKind.malformed_chunked o h = fails h refl
fault_outcome_fails PlanFaultKind.gzip o h = cc
fault_outcome_fails PlanFaultKind.deflate o h = cc
fault_outcome_fails PlanFaultKind.brotli o h = cc
fault_outcome_fails PlanFaultKind.corrupt_compression o h = fails h refl
fault_outcome_fails PlanFaultKind.response_too_large o h = fails h refl

module _ (c : SourceSettings) (pages page n : ℕ) (r : SourceRun) (counted : Counted c.quota n r)
    (succeeds : Succeeds r)
    (within : (c.quota.consume_per_page ≡ true) → n ≤ c.quota.request_budget) where
  paginate-Reaches : (p : PlanPagination) → Reaches c.quota n (paginate p pages page r)
  unfolding paginate Reaches
  paginate-Reaches p = elim (Bool-cases p.cursor_loop) [
    | inl e ↦ rw e (counted, inr (refl, refl))
    | inr e ↦ elim (Bool-cases (is_at p.invalid_page page)) [
      | inl f ↦ rw (e, f) (counted, inr (refl, refl))
      | inr f ↦ elim (Bool-cases (p.empty_final_page_with_next && page == pages)) [
        | inl g ↦ rw (e, f, g) (counted, inr (refl, refl))
        | inr g ↦ rw (e, f, g) (counted, succeeds, within)
      ]
    ]
  ]

  strike-Reaches :
      (kind : PlanFaultKind) (o : String × String)
      → str_eq o.0 "succeeded" ≡ false
      → Reaches c.quota n (strike c.quota kind o r)
  unfolding strike Reaches
  strike-Reaches kind o h = elim (Bool-cases (is_status429 kind)) [
    | inl e ↦ rw e (counted, (refl, refl), within)
    | inr e ↦ rw e (counted, inr (h, refl))
  ]

  with_outcome-Reaches :
      (kind : PlanFaultKind) (o : Option (String × String))
      → fault_outcome kind ≡ o
      → Reaches c.quota n (with_outcome c pages page kind o r)
  with_outcome-Reaches kind none h = paginate-Reaches c.pagination
  with_outcome-Reaches kind (some o) h = strike-Reaches kind o (fault_outcome_fails kind o h)

  with_fault-Reaches : (f : Option PlanFault) → Reaches c.quota n (with_fault c pages page f r)
  with_fault-Reaches none = paginate-Reaches c.pagination
  with_fault-Reaches (some fault) = with_outcome-Reaches fault.kind (fault_outcome fault.kind) refl

request_page-Reaches :
    (c : SourceSettings) (pages page n : ℕ) (r : SourceRun)
    → n < u64_max
    → Counted c.quota n r
    → Succeeds r
    → Reaches c.quota (suc n) (request_page c pages page r)
unfolding request_page
request_page-Reaches c pages page n r small h k =
    let sent = limit_page c.quota page (send_page c.quota r) in
    let counted =
      limit_page-Counted c.quota (suc n) page (send_page c.quota r)
        (send_page-Counted c.quota n r small h) in
    let good = limit_page-Succeeds c.quota page r k in
    elim (Bool-cases (ltb c.quota.request_budget sent.quota_consumed)) [
      | inl e ↦
          rw e (exhausted-Reaches c.quota (suc n) c.quota.exhausted_behaviour sent counted good)
      | inr e ↦ rw e (
          with_fault-Reaches c pages page (suc n) sent counted good
            (λ m. ground (arith, e, counted.1, m)) (fault_at c page))
    ]

-- What the loop returns, with `n` requests made and `left` pages to go.
pub record Simulated (c : SourceSettings) (n left : ℕ) (r : SourceRun) : Type 0 where
  pub counted : Counted c.quota r.request_count r
  pub least : n ≤ r.request_count
  pub more : (1 ≤ left) → suc n ≤ r.request_count
  pub few : r.request_count ≤ n + left
  pub within : (c.quota.consume_per_page ≡ true) → r.request_count ≤ c.quota.request_budget + 1
  pub coherent : Coherent r

request_pages-Simulated :
    (c : SourceSettings) (pages left page n : ℕ) (r : SourceRun)
    → n + left < u64_max
    → Counted c.quota n r
    → Succeeds r
    → ((c.quota.consume_per_page ≡ true) → n ≤ c.quota.request_budget)
    → Simulated c n left (request_pages c pages left page r)
unfolding request_pages Reaches
request_pages-Simulated c pages zero page n r small h k w = record {
  counted = (refl, ground (arith, h));
  least = omega (arith, h.0);
  more = λ m. absurd (omega arith);
  few = omega (arith, h.0);
  within = λ m. omega (arith, h.0, w m);
  coherent = inl k;
}
request_pages-Simulated c pages (suc left) page n r small h k w =
    next (request_page c pages page r) (request_page-Reaches c pages page n r (omega arith) h k)
      (request_pages-Simulated c pages left (suc page) (suc n))
  where
    next :
        (f : Flow)
        → Reaches c.quota (suc n) f
        → ((r' : SourceRun)
            → suc n + left < u64_max
            → Counted c.quota (suc n) r'
            → Succeeds r'
            → ((c.quota.consume_per_page ≡ true) → suc n ≤ c.quota.request_budget)
            → Simulated c (suc n) left (request_pages c pages left (suc page) r'))
        → Simulated c n (suc left) (follow f (request_pages c pages left (suc page)))
    next (Flow.continue r') g ih =
        let d = ih r' (omega arith) g.0 g.1 g.2 in
        record {
          counted = d.counted;
          least = omega (arith, d.least);
          more = λ m. d.least;
          few = omega (arith, d.few);
          within = d.within;
          coherent = d.coherent;
        }
    next (Flow.break r') g ih = record {
      counted = (refl, ground (arith, g.0));
      least = omega (arith, g.0.0);
      more = λ m. omega (arith, g.0.0);
      few = omega (arith, g.0.0);
      within = λ m. omega (arith, g.0.0, w m);
      coherent = g.1;
    }

-- The simulation of a source makes at least one request and at most one for each page, and, where each
-- page consumes quota, at most one above the budget; a source that succeeded has no failure noted and
-- one that did not has. This is for a source with at least one page and fewer than the greatest
-- `u64`, which validation admits.
pub run_source-bounds :
    (c : SourceSettings) (filtered : ℕ)
    → 1 ≤ page_count c
    → page_count c < u64_max
    → (1 ≤ (run_source c filtered).request_count)
      × ((run_source c filtered).request_count ≤ page_count c)
      × ((c.quota.consume_per_page ≡ true)
          → (run_source c filtered).request_count ≤ c.quota.request_budget + 1)
      × Coherent (run_source c filtered)
unfolding run_source
run_source-bounds c filtered some_page small =
    elim (Bool-cases (refuses_key c.authentication.mode)) [
      | inl e ↦ rw e (omega arith, some_page, (λ m. omega arith), inr (refl, refl))
      | inr e ↦
          let d =
            request_pages-Simulated c (page_count c) (page_count c) 1 0 (fresh_run filtered)
              (omega (arith, small)) (refl, ground arith) (refl, refl) (λ m. omega arith) in
          rw e (d.more some_page, omega (arith, d.few), d.within, d.coherent)
    ]
