-- ===== src/Lab/Budget.antt =====
-- `evaluate_quota`: all scopes or none, and never past a budget.
use fqdn_forge.Base.{
  ℕ, ◌+◌, ◌-◌, ◌≤◌, ◌<◌, String, ◌≡◌, ◌≢◌, ◌⊎◌, refl, sym, inl, inr, Bool, true, false, not, none,
  some, In, ap, ◌∙◌, subst, Option, leb, leb→le, is_some_and, List, [], ◌∷◌, map, arith, eq_iff,
  str_eq, if◌then◌else◌, any, All, u64_max, saturating_add, Bool-cases, &&_iff, false≢true,
}
use fqdn_forge.BTreeMap.{BTreeMap, get, insert, get-insert}
use fqdn_forge.Model.Scenario.{QuotaProfile}
use fqdn_forge.Lab.State.{RunSession, QuotaDecision}
use fqdn_forge.Lab.Exec.{ok, takes_requests}
use fqdn_forge.Lab.Requests.{or_default}
use fqdn_forge.Lab.Quota.{
  QuotaRequest, key_of, decide_from, recovered, used_now, decide, permitted, consume, withhold,
  apply_quota,
}

-- A decision that spends one of its scope's budget.
abbrev pub Spends : QuotaDecision → Type 0
Spends d =
    (d.consumed ≡ true) × (d.rate_limited ≡ false) × (d.remaining_after ≡ d.remaining_before - 1)

-- A decision that spends nothing.
abbrev pub Withholds : QuotaDecision → Type 0
Withholds d = (d.consumed ≡ false) × (d.remaining_after ≡ d.remaining_before)

-- The counter of a profile's scope goes up by one below the limit, up to the greatest `u64`; at the
-- limit it starts again at one, where the client waited as long as the profile asks.
abbrev pub Charged : QuotaRequest → QuotaProfile → ℕ → ℕ → Type 0
Charged r p before after =
    ((before < p.success_limit) × (after ≡ saturating_add before 1))
    ⊎ ((p.success_limit ≤ before)
        × ((wait : ℕ) × (p.recover_after_virtual_ms ≡ some wait)
            × (wait ≤ r.client_virtual_wait_ms))
        × (after ≡ 1))

-- What happens to the counter under a key: it is charged by a profile of that scope, or it stays, where
-- no profile has that scope.
abbrev pub Accounted : QuotaRequest → List QuotaProfile → BTreeMap ℕ → BTreeMap ℕ → Type 0
Accounted r profiles before after =
    (k : String)
    → ((p : QuotaProfile) × In p profiles
        × (key_of r p ≡ k)
        × Charged r p (or_default (get k before)) (or_default (get k after)))
      ⊎ (((p : QuotaProfile) → In p profiles → key_of r p ≢ k) × (get k after ≡ get k before))

-- Either no scope is rate-limited, each spends and the counters of the session are charged, or some
-- scope is rate-limited, none spends and the session is as it was.
abbrev pub AllOrNothing :
    QuotaRequest → List QuotaProfile → RunSession → List QuotaDecision → RunSession → Type 0
AllOrNothing r profiles run decisions run' =
    ((any (λ d. d.rate_limited) decisions ≡ false)
      × All Spends decisions
      × Accounted r profiles run.quota_counts run'.quota_counts
      × (run' ≡ record run { quota_counts = run'.quota_counts }))
    ⊎ ((any (λ d. d.rate_limited) decisions ≡ true) × All Withholds decisions × (run' ≡ run))

pub permitted-Spends :
    (r : QuotaRequest) (counts : BTreeMap ℕ) (profiles : List QuotaProfile)
    → permitted (map (decide r counts) profiles) ≡ true
    → (any (λ d. d.rate_limited) (map (decide r counts) profiles) ≡ false)
      × All Spends (map (decide r counts) profiles)
unfolding permitted decide decide_from
permitted-Spends r counts [] h = (refl, tt)
permitted-Spends r counts (p ∷ ps) h =
    let parts =
      (&&_iff (not (decide r counts p).rate_limited) (permitted (map (decide r counts) ps))).0 h in
    let rest = permitted-Spends r counts ps parts.1 in
    (ground (arith, parts.0, rest.0), (ground (arith, parts.0), rest.1))

withheld-Withholds : (ds : List QuotaDecision) → All Withholds (map withhold ds)
unfolding withhold
withheld-Withholds [] = tt
withheld-Withholds (d ∷ ds) = ((refl, refl), withheld-Withholds ds)

pub denied-limited :
    (ds : List QuotaDecision)
    → permitted ds ≡ false
    → any (λ d. d.rate_limited) (map withhold ds) ≡ true
unfolding permitted withhold
denied-limited [] h = absurd (false≢true (sym h))
denied-limited (d ∷ ds) h = ground (arith, h, denied-limited ds)

-- A used-up scope that is not rate-limited has recovered.
waited :
    (wait : ℕ) (o : Option ℕ)
    → is_some_and o (λ minimum. leb minimum wait) ≡ true
    → (m : ℕ) × (o ≡ some m) × (m ≤ wait)
waited wait none h = absurd (false≢true h)
waited wait (some m) h = (m, refl, leb→le m wait h)

decide_from-Charged :
    (r : QuotaRequest) (p : QuotaProfile) (n : ℕ)
    → (decide_from r p n).rate_limited ≡ false
    → Charged r p n (saturating_add (p.success_limit - (decide_from r p n).remaining_before) 1)
unfolding decide_from used_now recovered
decide_from-Charged r p n h =
    let late =
      is_some_and p.recover_after_virtual_ms (λ minimum. leb minimum r.client_virtual_wait_ms) in
    elim (Bool-cases (leb p.success_limit n)) [
      | inl e ↦ elim (Bool-cases late) [
        | inl f ↦ inr (
          leb→le p.success_limit n e,
          waited r.client_virtual_wait_ms p.recover_after_virtual_ms f,
          rw (e, f) (ground arith),
        )
        | inr f ↦ absurd (ground (arith, e, f, h))
      ]
      | inr e ↦ inl (ground (arith, e), rw e (ground (arith, e)))
    ]

decide-Charged :
    (r : QuotaRequest) (counts : BTreeMap ℕ) (p : QuotaProfile)
    → (decide r counts p).rate_limited ≡ false
    → Charged r p
        (or_default (get (key_of r p) counts))
        (saturating_add (p.success_limit - (decide r counts p).remaining_before) 1)
unfolding decide
decide-Charged r counts p h = decide_from-Charged r p (or_default (get (key_of r p) counts)) h

module _ (r : QuotaRequest) (k : String) where
  not_used :
      (ps : List QuotaProfile) (p : QuotaProfile)
      → key_of r p ≢ k
      → ((q : QuotaProfile) → In q ps → key_of r q ≢ k)
      → (q : QuotaProfile) → In q (p ∷ ps)
      → key_of r q ≢ k
  not_used ps p own other q (inl e) = subst (λ t. key_of r t ≢ k) e own
  not_used ps p own other q (inr m) = other q m

-- The second loop, from any counters at hand: the last profile of a scope charges its counter.
consume-Accounted :
    (r : QuotaRequest) (counts now : BTreeMap ℕ) (ps : List QuotaProfile) (k : String)
    → permitted (map (decide r counts) ps) ≡ true
    → ((p : QuotaProfile) × In p ps
        × (key_of r p ≡ k)
        × Charged r p
            (or_default (get k counts))
            (or_default (get k (consume r ps (map (decide r counts) ps) now))))
      ⊎ (((p : QuotaProfile) → In p ps → key_of r p ≢ k)
          × (get k (consume r ps (map (decide r counts) ps) now) ≡ get k now))
unfolding consume permitted
consume-Accounted r counts now [] k h = inr ((λ p m. absurd m), refl)
consume-Accounted r counts now (p ∷ ps) k h =
    let parts =
      (&&_iff (not (decide r counts p).rate_limited) (permitted (map (decide r counts) ps))).0 h in
    let next = saturating_add (p.success_limit - (decide r counts p).remaining_before) 1 in
    let open' : (decide r counts p).rate_limited ≡ false = ground (arith, parts.0) in
    let later = consume-Accounted r counts (insert (key_of r p) next now) ps k parts.1 in
    elim later [
      | inl (q, m, e, c) ↦ inl (q, inr m, e, c)
      | inr (other, same) ↦ elim (Bool-cases (str_eq (key_of r p) k)) [
        | inl e ↦
            let own = (eq_iff (key_of r p) k).0 e in
            let value : or_default
                  (get k (consume r ps (map (decide r counts) ps) (insert (key_of r p) next now)))
                ≡ next =
              ap or_default same ∙ ground (arith, get-insert (key_of r p) k next now, e) in
            inl (
              p,
              inl refl,
              own,
              subst (λ v. Charged r p (or_default (get k counts)) v) (sym value)
                  (subst (λ i. Charged r p (or_default (get i counts)) next) own
                    (decide-Charged r counts p open')),
            )
        | inr e ↦
            let kept : get k (insert (key_of r p) next now) ≡ get k now =
              ground (arith, get-insert (key_of r p) k next now, e) in
            inr (
              not_used r k ps p (λ f. false≢true (sym e ∙ (eq_iff (key_of r p) k).1 f)) other,
              same ∙ kept,
            )
      ]
    ]

-- One evaluation is all or nothing. A session that takes requests either spends one of every scope's
-- budget: each counter of a scope goes up by one, or to one where a used-up scope has recovered, and
-- no other part of the session changes; or, where a scope is rate-limited, it spends nothing and stays
-- as it was.
pub apply_quota-AllOrNothing :
    (r : QuotaRequest) (profiles : List QuotaProfile) (run : RunSession)
    → takes_requests run.status ≡ true
    → (decisions : List QuotaDecision) × ((apply_quota r profiles run).0 ≡ ok decisions)
      × AllOrNothing r profiles run decisions (apply_quota r profiles run).1
unfolding apply_quota
apply_quota-AllOrNothing r profiles run taken =
    let ds = map (decide r run.quota_counts) profiles in
    elim (Bool-cases (permitted ds)) [
      | inl yes' ↦
          let spends = permitted-Spends r run.quota_counts profiles yes' in
          (
            ds,
            rw (taken, yes', apply_quota),
            inl (
                rw (taken, yes', apply_quota)
                  (
                    spends.0,
                    spends.1,
                    (λ k. consume-Accounted r run.quota_counts run.quota_counts profiles k yes'),
                    refl,
                  )),
          )
      | inr no' ↦ (
        map withhold ds,
        rw (taken, no', apply_quota),
        inr (denied-limited ds no', withheld-Withholds ds, rw (taken, no', apply_quota)),
      )
    ]

-- The profiles at hand never recover, and their limits are `usize` values.
abbrev pub IsStrict : QuotaProfile → Type 0
IsStrict p = (p.recover_after_virtual_ms ≡ none) × (p.success_limit ≤ u64_max)

abbrev pub used : QuotaRequest → QuotaProfile → BTreeMap ℕ → ℕ
used r p counts = or_default (get (key_of r p) counts)

module _ (r : QuotaRequest) (counts : BTreeMap ℕ) (p : QuotaProfile) (strict : IsStrict p) where
  -- A permitted scope has budget left, and its counter takes the next value.
  pub decide_strict :
      (decide r counts p).rate_limited ≡ false
      → (used r p counts < p.success_limit)
        × (saturating_add (p.success_limit - (decide r counts p).remaining_before) 1
            ≡ used r p counts + 1)
  unfolding decide decide_from
  decide_strict h = ground (arith, strict, h)

  pub decide_limited : (decide r counts p).rate_limited ≡ true → p.success_limit ≤ used r p counts
  unfolding decide decide_from
  decide_limited h = ground (arith, strict, h)

-- A counter after the second loop: one more if a profile has its key.
abbrev pub touches : QuotaRequest → String → List QuotaProfile → Bool
touches r k = any λ p. str_eq (key_of r p) k

pub get-consume :
    (r : QuotaRequest) (counts now : BTreeMap ℕ) (ps : List QuotaProfile) (k : String)
    → All IsStrict ps
    → permitted (map (decide r counts) ps) ≡ true
    → or_default (get k (consume r ps (map (decide r counts) ps) now))
      ≡ (if touches r k ps then or_default (get k counts) + 1 else or_default (get k now))
unfolding consume permitted
get-consume r counts now [] k strict h = refl
get-consume r counts now (p ∷ ps) k strict h =
    let parts =
      (&&_iff (not (decide r counts p).rate_limited) (permitted (map (decide r counts) ps))).0 h in
    let next = saturating_add (p.success_limit - (decide r counts p).remaining_before) 1 in
    let open' : (decide r counts p).rate_limited ≡ false = ground (arith, parts.0) in
    ground (
      arith,
      get-consume r counts (insert (key_of r p) next now) ps k strict.1 parts.1,
      get-insert (key_of r p) k next now,
      eq_iff (key_of r p) k,
      (decide_strict r counts p strict.0 open').1,
    )
