-- ===== src/Lab/Allowance.antt =====
-- How many requests the quota profiles of an endpoint let through.
use fqdn_forge.Base.{
  ℕ, suc, ◌+◌, ◌-◌, ◌<◌, min, String, ◌≡◌, refl, sym, ap, ◌∙◌, inl, inr, Bool, true, false, not,
  List, [], ◌∷◌, map, arith, eq_refl, str_eq, if◌then◌else◌, any, any_of_In, All, In, length,
  Bool-cases, &&_iff, false≢true,
}
use fqdn_forge.BTreeMap.{BTreeMap}
use fqdn_forge.Model.Scenario.{QuotaProfile}
use fqdn_forge.Lab.State.{RunSession, RunStateError, QuotaDecision}
use fqdn_forge.Lab.Exec.{Result, ok, err, takes_requests}
use fqdn_forge.Lab.Quota.{QuotaRequest, key_of, decide, permitted, consume, withhold, apply_quota}
use fqdn_forge.Lab.Budget.{
  IsStrict, used, decide_strict, decide_limited, denied-limited, permitted-Spends, get-consume,
}

-- A request is let through if no scope limits it.
abbrev pub is_granted : Result RunStateError (List QuotaDecision) → Bool
is_granted (ok decisions) = not (any (λ d. d.rate_limited) decisions)
is_granted (err e) = false

abbrev pub request : String → String → ℕ → QuotaRequest
request endpoint_id credential_identity wait = record {
  endpoint_id = endpoint_id;
  credential_identity = credential_identity;
  client_virtual_wait_ms = wait;
}

-- The requests of one client to one endpoint, each with the wait that it reports: how many of them
-- are let through.
unfoldable pub granted : String → String → List QuotaProfile → List ℕ → RunSession → ℕ
unfolding apply_quota
granted endpoint_id credential_identity profiles [] run = 0
granted endpoint_id credential_identity profiles (wait ∷ rest) run =
    let (answer, run') = apply_quota (request endpoint_id credential_identity wait) profiles run in
    let more = granted endpoint_id credential_identity profiles rest run' in
    if is_granted answer then suc more else more

-- The least of `n` and what each profile has left.
abbrev pub allowance : QuotaRequest → BTreeMap ℕ → ℕ → List QuotaProfile → ℕ
allowance r counts n [] = n
allowance r counts n (p ∷ ps) = min (p.success_limit - used r p counts) (allowance r counts n ps)

module _ (r : QuotaRequest) (counts counts' : BTreeMap ℕ) where
  allowance-suc :
      (n : ℕ) (ps : List QuotaProfile)
      → All (λ p. (used r p counts < p.success_limit) × (used r p counts' ≡ used r p counts + 1)) ps
      → allowance r counts (suc n) ps ≡ suc (allowance r counts' n ps)
  allowance-suc n [] h = refl
  allowance-suc n (p ∷ ps) h = omega (arith, allowance-suc n ps h.1)

allowance_zero :
    (r : QuotaRequest) (counts : BTreeMap ℕ) (ps : List QuotaProfile) → allowance r counts 0 ps ≡ 0
allowance_zero r counts [] = refl
allowance_zero r counts (p ∷ ps) = omega (arith, allowance_zero r counts ps)

allowance_none :
    (r : QuotaRequest) (counts : BTreeMap ℕ) (n : ℕ) (ps : List QuotaProfile)
    → All IsStrict ps
    → permitted (map (decide r counts) ps) ≡ false
    → allowance r counts n ps ≡ 0
unfolding permitted
allowance_none r counts n [] strict h = absurd (false≢true (sym h))
allowance_none r counts n (p ∷ ps) strict h = elim (Bool-cases (decide r counts p).rate_limited) [
  | inl e ↦ omega (arith, decide_limited r counts p strict.0 e)
  | inr e ↦ omega (arith, allowance_none r counts n ps strict.1 (ground (arith, e, h)))
]

-- Where every scope permits, each profile had something left and has one less now.
permitted_room :
    (r : QuotaRequest) (counts : BTreeMap ℕ) (ps : List QuotaProfile)
    → All IsStrict ps
    → permitted (map (decide r counts) ps) ≡ true
    → All (λ p. used r p counts < p.success_limit) ps
unfolding permitted
permitted_room r counts [] strict h = tt
permitted_room r counts (p ∷ ps) strict h =
    let parts =
      (&&_iff (not (decide r counts p).rate_limited) (permitted (map (decide r counts) ps))).0 h in
    (
      (decide_strict r counts p strict.0 (ground (arith, parts.0))).0,
      permitted_room r counts ps strict.1 parts.1,
    )

consumed_next :
    (r : QuotaRequest) (counts : BTreeMap ℕ) (ps : List QuotaProfile)
    → All IsStrict ps
    → permitted (map (decide r counts) ps) ≡ true
    → (p : QuotaProfile) → In p ps
    → used r p (consume r ps (map (decide r counts) ps) counts) ≡ used r p counts + 1
consumed_next r counts ps strict h p m =
    get-consume r counts counts ps (key_of r p) strict h
    ∙ ap (λ b. if b then used r p counts + 1 else used r p counts)
        (any_of_In (λ q. str_eq (key_of r q) (key_of r p)) ps p m (eq_refl (key_of r p)))

module _ (P Q : QuotaProfile → Type 0) where
  All-both :
      (ps : List QuotaProfile)
      → All P ps
      → ((p : QuotaProfile) → In p ps → Q p)
      → All (λ p. P p × Q p) ps
  All-both [] h k = tt
  All-both (p ∷ ps) h k = ((h.0, k p (inl refl)), All-both ps h.1 (λ q m. k q (inr m)))

module _ (r : QuotaRequest) (ps : List QuotaProfile) (run : RunSession)
    (taken : takes_requests run.status ≡ true) where
  decisions : List QuotaDecision
  decisions = map (decide r run.quota_counts) ps

  apply_permitted :
      permitted decisions ≡ true
      → apply_quota r ps run
        ≡ (ok decisions, record run { quota_counts = consume r ps decisions run.quota_counts })
  unfolding decisions
  apply_permitted h = unfold apply_quota in rw (taken, h, apply_quota)

  apply_denied :
      permitted decisions ≡ false → apply_quota r ps run ≡ (ok (map withhold decisions), run)
  unfolding decisions
  apply_denied h = unfold apply_quota in rw (taken, h, apply_quota)

module _ (endpoint_id credential_identity : String) (ps : List QuotaProfile)
    (strict : All IsStrict ps) where
  -- What a number of requests gets from a session.
  abbrev Exact : List ℕ → RunSession → Type 0
  Exact waits run =
      granted endpoint_id credential_identity ps waits run
      ≡ allowance (request endpoint_id credential_identity 0) run.quota_counts (length waits) ps

  granted-Exact :
      (waits : List ℕ) (run : RunSession) → takes_requests run.status ≡ true → Exact waits run
  unfolding granted decisions
  granted-Exact [] run taken =
      sym (allowance_zero (request endpoint_id credential_identity 0) run.quota_counts ps)
  granted-Exact (wait ∷ rest) run taken =
      let r = request endpoint_id credential_identity wait in
      let counts = run.quota_counts in
      let ds = map (decide r counts) ps in
      elim (Bool-cases (permitted ds)) [
        | inl h ↦
            rw (apply_permitted r ps run taken h, (permitted-Spends r counts ps h).0)
              (ap suc
                  (granted-Exact rest (record run { quota_counts = consume r ps ds counts }) taken)
                ∙ sym (
                    allowance-suc r counts (consume r ps ds counts) (length rest) ps (
                      All-both _ _ ps (permitted_room r counts ps strict h)
                        (consumed_next r counts ps strict h))))
        | inr h ↦
            rw (apply_denied r ps run taken h, denied-limited ds h)
              (granted-Exact rest run taken
                ∙ allowance_none r counts (length rest) ps strict h
                ∙ sym (allowance_none r counts (suc (length rest)) ps strict h))
      ]

-- In a session that takes requests, of any number of requests of one client to one endpoint exactly
-- as many are let through as the scarcest profile has left, whatever waits the client reports, where
-- the limits of the profiles fit a u64 and none of them recovers.
pub granted-eq-allowance :
    (endpoint_id credential_identity : String) (profiles : List QuotaProfile) (waits : List ℕ)
    (run : RunSession)
    → All IsStrict profiles
    → takes_requests run.status ≡ true
    → granted endpoint_id credential_identity profiles waits run
      ≡ allowance
          (request endpoint_id credential_identity 0)
          run.quota_counts
          (length waits)
          profiles
granted-eq-allowance endpoint_id credential_identity profiles waits run strict taken =
    granted-Exact endpoint_id credential_identity profiles strict waits run taken
