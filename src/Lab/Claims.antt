-- ===== src/Lab/Claims.antt =====
-- The reply indices that `claim_response_index` hands out, over any sequence of requests.
use fqdn_forge.Base.{
  ℕ, zero, suc, ◌+◌, ◌≤◌, String, ◌≡◌, ◌⊎◌, refl, inl, inr, true, false, Option, none, some, List,
  [], ◌∷◌, arith, eq_iff, str_eq, ltb, if◌then◌else◌, Bool-cases, ap, ap₂, sym, subst, ◌∙◌, eq_refl,
}
use fqdn_forge.BTreeMap.{get, get-insert}
use fqdn_forge.Model.Values.{DateTime}
use fqdn_forge.Lab.State.{RunSession, RunStateError}
use fqdn_forge.Lab.Exec.{Result, ok, takes_requests}
use fqdn_forge.Lab.Requests.{or_default, claim_index}

-- The answers to a sequence of requests, each for an endpoint; `replies` says how many replies an
-- endpoint has.
unfoldable pub claim_all :
    (String → ℕ)
    → List (String × DateTime)
    → RunSession
    → List (String × Result RunStateError (Option ℕ))
unfolding claim_index
claim_all replies [] run = []
claim_all replies ((e, now) ∷ rest) run =
    let (answer, run') = claim_index e (replies e) now run in
    (e, answer) ∷ claim_all replies rest run'

-- The answers that the requests for one endpoint got.
abbrev pub answers_for :
    String
    → List (String × Result RunStateError (Option ℕ))
    → List (Result RunStateError (Option ℕ))
answers_for e [] = []
answers_for e ((j, answer) ∷ rest) =
    if str_eq j e then answer ∷ answers_for e rest else answers_for e rest

abbrev pub requests_for : String → List (String × DateTime) → ℕ
requests_for e [] = 0
requests_for e ((j, now) ∷ rest) =
    if str_eq j e then suc (requests_for e rest) else requests_for e rest

-- `count` answers: the indices from `next` on while they are below `replies`, then none.
abbrev pub in_order : ℕ → ℕ → ℕ → List (Result RunStateError (Option ℕ))
in_order next replies zero = []
in_order next replies (suc count) =
    ok (if ltb next replies then some next else none) ∷ in_order (suc next) replies count

abbrev count_at : String → RunSession → ℕ
count_at e run = or_default (get e run.response_counts)

module _ (e : String) (n : ℕ) (now : DateTime) (run : RunSession)
    (taken : takes_requests run.status ≡ true) where
  claim_answer :
      (claim_index e n now run).0
      ≡ ok (if ltb (count_at e run) n then some (count_at e run) else none)
  unfolding claim_index
  claim_answer = ground arith

  claim_stays : takes_requests (claim_index e n now run).1.status ≡ true
  unfolding claim_index
  claim_stays = ground arith

  claim_counts :
      (j : String)
      → count_at j (claim_index e n now run).1 ≡ (
          if str_eq e j
          then if ltb (count_at e run) n then count_at e run + 1 else count_at e run
          else count_at j run)
  unfolding claim_index
  claim_counts j = ground (
    arith,
    eq_iff e j,
    get-insert e j (count_at e run) run.response_counts,
    get-insert e j (count_at e run + 1) run.response_counts,
  )

-- The counter stands at the next index, or both have passed the last reply.
abbrev Meets : ℕ → ℕ → ℕ → Type 0
Meets next n count = (count ≡ next) ⊎ ((n ≤ count) × (n ≤ next))

Meets-suc :
    (next n count : ℕ)
    → Meets next n count
    → Meets (suc next) n (if ltb count n then count + 1 else count)
Meets-suc next n count (inl e) = grind arith
Meets-suc next n count (inr h) = grind arith

Meets-answer :
    (next n count : ℕ)
    → Meets next n count
    → (if ltb count n then some count else none) ≡ (if ltb next n then some next else none)
Meets-answer next n count (inl e) = rw e
Meets-answer next n count (inr h) = ground arith

module _ (replies : String → ℕ) (e : String) where
  -- What is claimed about one sequence of requests.
  abbrev InOrder : List (String × DateTime) → Type 0
  InOrder requests =
      (run : RunSession) (next : ℕ)
      → takes_requests run.status ≡ true
      → Meets next (replies e) (count_at e run)
      → answers_for e (claim_all replies requests run)
        ≡ in_order next (replies e) (requests_for e requests)

  InOrder-own :
      (now : DateTime) (rest : List (String × DateTime)) → InOrder rest → InOrder ((e, now) ∷ rest)
  unfolding claim_all
  InOrder-own now rest ih run next taken meets =
      let run' = (claim_index e (replies e) now run).1 in
      let counts = claim_counts e (replies e) now run taken e in
      let meets' : Meets (suc next) (replies e) (count_at e run') =
        rw (counts, eq_refl e) (Meets-suc next (replies e) (count_at e run) meets) in
      rw eq_refl (
        ap₂ (λ a l. a ∷ l)
          (claim_answer e (replies e) now run taken
            ∙ ap ok (Meets-answer next (replies e) (count_at e run) meets))
          (ih run' (suc next) (claim_stays e (replies e) now run taken) meets'))

  InOrder-other :
      (j : String) (now : DateTime) (rest : List (String × DateTime))
      → str_eq j e ≡ false
      → InOrder rest
      → InOrder ((j, now) ∷ rest)
  unfolding claim_all
  InOrder-other j now rest other ih run next taken meets =
      let counts = claim_counts j (replies j) now run taken e in
      rw other (
        ih (claim_index j (replies j) now run).1 next (claim_stays j (replies j) now run taken)
          (rw (counts, other) meets))

  claims_from : (requests : List (String × DateTime)) → InOrder requests
  unfolding claim_all
  claims_from [] = λ run next taken meets. refl
  claims_from ((j, now) ∷ rest) = elim (Bool-cases (str_eq j e)) [
    | inl same ↦
        subst (λ i. InOrder ((i, now) ∷ rest)) (sym ((eq_iff j e).0 same))
          (InOrder-own now rest (claims_from rest))
    | inr other ↦ InOrder-other j now rest other (claims_from rest)
  ]

-- From a session that takes requests, whatever the requests for other endpoints in between, the
-- requests for an endpoint are answered with the indices from its counter on, one by one and each
-- once, up to the last reply, and with none from there on.
pub claim_all-in_order :
    (replies : String → ℕ) (e : String) (requests : List (String × DateTime)) (run : RunSession)
    → takes_requests run.status ≡ true
    → answers_for e (claim_all replies requests run)
      ≡ in_order (or_default (get e run.response_counts)) (replies e) (requests_for e requests)
claim_all-in_order replies e requests run taken =
    claims_from replies e requests run (count_at e run) taken (inl refl)
