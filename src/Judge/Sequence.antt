-- ===== src/Judge/Sequence.antt =====
-- What the expected request sequence asks of the audit.
use fqdn_forge.Base.{
  ℕ, zero, suc, ◌+◌, ◌≡◌, refl, sym, ap, subst, ◌∙◌, ◌↔◌, true, Option, none, some, List, [], ◌∷◌,
  arith, get_elem?, is_some_and, is_some_and-str_eq, is_none_or, ◌==◌, ==_iff, &&_iff, of_some,
  false≢true,
}
use fqdn_forge.Model.Truth.{RequestSequenceExpectation}
use fqdn_forge.Model.Audit.{AuditRecord}
use fqdn_forge.Judge.Checks.{at_endpoint, request_matches, sequence_matches}

-- The record answers the expectation: the same endpoint and, where one is asked for, the same index.
abbrev pub Meets : RequestSequenceExpectation → AuditRecord → Type 0
Meets expected actual =
    (actual.endpoint_id ≡ some expected.endpoint)
    × ((i : ℕ) → expected.response_index ≡ some i → actual.response_index ≡ some i)

not_some : {n : ℕ} → ◌≡◌ {A = Option ℕ} none (some n) → ⊥
not_some h = cc

index_iff :
    (wanted given : Option ℕ)
    → (is_none_or wanted (λ index. is_some_and given (λ i. i == index)) ≡ true)
      ↔ ((i : ℕ) → wanted ≡ some i → given ≡ some i)
index_iff none given = ((λ _ i h. cc), λ _. refl)
index_iff (some n) none = ((λ h. absurd (false≢true h)), λ h. absurd (not_some (h n refl)))
index_iff (some n) (some m) =
    ((λ h i e. ap some ((==_iff m n).0 h ∙ of_some e)), λ h. (==_iff m n).1 (of_some (h n refl)))

request_matches_iff :
    (expected : RequestSequenceExpectation) (actual : AuditRecord)
    → (request_matches expected actual ≡ true) ↔ Meets expected actual
unfolding request_matches
request_matches_iff expected actual =
    let endpoint = is_some_and-str_eq actual.endpoint_id expected.endpoint in
    let index = index_iff expected.response_index actual.response_index in
    let both = &&_iff (at_endpoint expected.endpoint actual) (
      is_none_or expected.response_index
        (λ index. is_some_and actual.response_index (λ i. i == index))) in
    (
      (λ h. (endpoint.0 (both.0 h).0, index.0 (both.0 h).1)),
      λ (e, i). both.1 (endpoint.1 e, index.1 i),
    )

module _ (audit : List AuditRecord) where
  -- The place `n` of the audit answers the expectation.
  abbrev MeetsAt : ℕ → RequestSequenceExpectation → Type 0
  MeetsAt n expected = (r : AuditRecord) × (get_elem? audit n ≡ some r) × Meets expected r

  place_iff :
      (expected : RequestSequenceExpectation) (o : Option AuditRecord)
      → (is_some_and o (request_matches expected) ≡ true)
        ↔ ((r : AuditRecord) × (o ≡ some r) × Meets expected r)
  place_iff expected none = ((λ h. absurd (false≢true h)), λ (r, e, m). cc)
  place_iff expected (some r) = (
    (λ h. (r, refl, (request_matches_iff expected r).0 h)),
    λ (q, e, m). (request_matches_iff expected r).1 (subst (Meets expected) (sym (of_some e)) m),
  )

  -- Places counted from the next one are one further on.
  move : (i n : ℕ) (e : RequestSequenceExpectation) → MeetsAt (i + suc n) e → MeetsAt (suc i + n) e
  move i n e = subst (λ p. MeetsAt p e) (omega arith)

  move_back :
      (i n : ℕ) (e : RequestSequenceExpectation) → MeetsAt (suc i + n) e → MeetsAt (i + suc n) e
  move_back i n e = subst (λ p. MeetsAt p e) (omega arith)

  -- Every expectation is met, the first at the place `n`.
  abbrev AllMet : ℕ → List RequestSequenceExpectation → Type 0
  AllMet n expectations =
      (i : ℕ) (e : RequestSequenceExpectation)
      → get_elem? expectations i ≡ some e
      → MeetsAt (i + n) e

  AllMet-join :
      (n : ℕ) (e : RequestSequenceExpectation) (rest : List RequestSequenceExpectation)
      → MeetsAt n e
      → AllMet (suc n) rest
      → AllMet n (e ∷ rest)
  AllMet-join n e rest here later zero d h =
      subst (λ p. MeetsAt p d) (omega arith) (subst (MeetsAt n) (of_some h) here)
  AllMet-join n e rest here later (suc i) d h = move i n d (later i d h)

  sequence_from_iff :
      (n : ℕ) (expectations : List RequestSequenceExpectation)
      → (sequence_matches audit n expectations ≡ true) ↔ AllMet n expectations
  unfolding sequence_matches
  sequence_from_iff n [] = ((λ _ i expected h. cc), λ _. refl)
  sequence_from_iff n (first ∷ rest) =
      let both =
        &&_iff (is_some_and (get_elem? audit n) (request_matches first))
          (sequence_matches audit (suc n) rest) in
      let here = place_iff first (get_elem? audit n) in
      let later = sequence_from_iff (suc n) rest in
      (
        (λ h. AllMet-join n first rest (here.0 (both.0 h).0) (later.0 (both.0 h).1)),
        λ h.
            let tail : AllMet (suc n) rest = λ i d f. move_back i n d (h (suc i) d f) in
            both.1
              (here.1 (subst (λ p. MeetsAt p first) (omega arith) (h 0 first refl)), later.1 tail),
      )

-- The request sequence matches exactly when at each place for which an expectation is written the
-- audit of source requests has a record, which names the endpoint that is expected and, where a
-- reply index is expected, that index.
pub sequence_matches_iff :
    (audit : List AuditRecord) (expectations : List RequestSequenceExpectation)
    → (sequence_matches audit 0 expectations ≡ true) ↔ (
        (i : ℕ) (expected : RequestSequenceExpectation)
        → get_elem? expectations i ≡ some expected
        → (r : AuditRecord) × (get_elem? audit i ≡ some r) × Meets expected r)
sequence_matches_iff audit expectations =
    let from_start = sequence_from_iff audit 0 expectations in
    (
      (λ h i e f. subst (λ p. MeetsAt audit p e) (omega arith) (from_start.0 h i e f)),
      λ h. from_start.1 (λ i e f. subst (λ p. MeetsAt audit p e) (omega arith) (h i e f)),
    )
