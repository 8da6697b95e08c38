-- ===== src/Lab/Occurrences.antt =====
-- How often a fault of a source strikes while the capability of its run lasts.
use fqdn_forge.Base.{
  ℕ, ◌-◌, ◌≤◌, String, ◌≡◌, refl, sym, ◌∙◌, ap₂, inl, inr, Bool, true, false, List, [], ◌∷◌, map,
  arith, leb, ltb, if◌then◌else◌, Bool-cases, eq_refl, u64_max, saturating_add,
}
use fqdn_forge.BTreeMap.{get, get-insert}
use fqdn_forge.Model.Values.{DateTime}
use fqdn_forge.Plan.Settings.{PlanFault}
use fqdn_forge.Lab.State.{PlanRunRuntime}
use fqdn_forge.Lab.Exec.{Result, ok, err}
use fqdn_forge.Lab.Requests.{or_default}
use fqdn_forge.Lab.Capability.{expire, capability_over}
use fqdn_forge.Lab.Faults.{fault_key, consume_fault}

-- The answers to one request after the other for a fault, at these times.
unfoldable pub consume_all :
    String → PlanFault → List DateTime → PlanRunRuntime → List (Result String Bool)
unfolding consume_fault
consume_all source_id fault [] runtime = []
consume_all source_id fault (now ∷ rest) runtime =
    let (answer, runtime') = consume_fault source_id fault now runtime in
    answer ∷ consume_all source_id fault rest runtime'

abbrev pub refused : DateTime → Result String Bool
refused now = err capability_over

-- The fault strikes `left` times, then no more; from the first request that comes at the end of the
-- capability or later, all are refused, whatever the clock says from then on.
abbrev pub strikes : ℕ → DateTime → List DateTime → List (Result String Bool)
strikes left expires_at [] = []
strikes left expires_at (now ∷ rest) =
    let later = strikes (left - 1) expires_at rest in
    if leb expires_at now then map refused (now ∷ rest) else ok (ltb 0 left) ∷ later

abbrev pub occurred : String → PlanFault → PlanRunRuntime → ℕ
occurred source_id fault runtime =
    or_default (get (fault_key source_id fault) runtime.fault_occurrences)

module _ (n : ℕ) (e now : DateTime) (rest : List DateTime) where
  strikes_ended : leb e now ≡ true → strikes n e (now ∷ rest) ≡ map refused (now ∷ rest)
  strikes_ended ended = rw ended refl

  strikes_early :
      leb e now ≡ false → strikes n e (now ∷ rest) ≡ ok (ltb 0 n) ∷ strikes (n - 1) e rest
  strikes_early early = rw early refl

module _ (source_id : String) (fault : PlanFault) where
  over_answer :
      (now : DateTime) (runtime : PlanRunRuntime)
      → runtime.active ≡ false
      → (consume_fault source_id fault now runtime).0 ≡ err capability_over
  unfolding consume_fault expire
  over_answer now runtime over = ground (arith, over)

  over_stays :
      (now : DateTime) (runtime : PlanRunRuntime)
      → runtime.active ≡ false
      → (consume_fault source_id fault now runtime).1.active ≡ false
  unfolding consume_fault expire
  over_stays now runtime over = ground (arith, over)

  all_refused :
      (times : List DateTime) (runtime : PlanRunRuntime)
      → runtime.active ≡ false
      → consume_all source_id fault times runtime ≡ map refused times
  unfolding consume_all
  all_refused [] runtime over = refl
  all_refused (now ∷ rest) runtime over =
      ap₂ (λ a l. a ∷ l) (over_answer now runtime over)
        (all_refused rest (consume_fault source_id fault now runtime).1
          (over_stays now runtime over))

  late :
      (now : DateTime) (runtime : PlanRunRuntime)
      → leb runtime.expires_at now ≡ true
      → (consume_fault source_id fault now runtime).0 ≡ err capability_over
  unfolding consume_fault expire
  late now runtime h = ground (arith, h)

  late_closes :
      (now : DateTime) (runtime : PlanRunRuntime)
      → leb runtime.expires_at now ≡ true
      → (consume_fault source_id fault now runtime).1.active ≡ false
  unfolding consume_fault expire
  late_closes now runtime h = ground (arith, h)

  module _ (now : DateTime) (runtime : PlanRunRuntime) (active : runtime.active ≡ true)
      (early : leb runtime.expires_at now ≡ false) where
    struck :
        (consume_fault source_id fault now runtime).0
        ≡ ok (ltb 0 (fault.occurrences - occurred source_id fault runtime))
    unfolding consume_fault expire
    struck = ground (arith, early)

    stays_active : (consume_fault source_id fault now runtime).1.active ≡ true
    unfolding consume_fault expire
    stays_active = ground (arith, early)

    same_end : (consume_fault source_id fault now runtime).1.expires_at ≡ runtime.expires_at
    unfolding consume_fault expire
    same_end = ground (arith, early)

    one_less :
        fault.occurrences ≤ u64_max
        → fault.occurrences - occurred source_id fault (consume_fault source_id fault now runtime).1
          ≡ fault.occurrences - occurred source_id fault runtime - 1
    unfolding consume_fault expire
    one_less bound =
        let k = fault_key source_id fault in
        let c = occurred source_id fault runtime in
        ground (
          arith,
          early,
          eq_refl k,
          get-insert k k c runtime.fault_occurrences,
          get-insert k k (saturating_add c 1) runtime.fault_occurrences,
        )

  abbrev left : PlanRunRuntime → ℕ
  left runtime = fault.occurrences - occurred source_id fault runtime

  -- What is claimed about one sequence of requests.
  abbrev StrikesLeft : List DateTime → Type 0
  StrikesLeft times =
      (runtime : PlanRunRuntime)
      → runtime.active ≡ true
      → consume_all source_id fault times runtime
        ≡ strikes (fault.occurrences - occurred source_id fault runtime) runtime.expires_at times

  module _ (bound : fault.occurrences ≤ u64_max) where
    StrikesLeft-next :
        (now : DateTime) (rest : List DateTime) → StrikesLeft rest → StrikesLeft (now ∷ rest)
    unfolding consume_all
    StrikesLeft-next now rest ih runtime active =
        let runtime' = (consume_fault source_id fault now runtime).1 in
        elim (Bool-cases (leb runtime.expires_at now)) [
          | inl ended ↦
              ap₂ (λ a l. a ∷ l) (late now runtime ended)
                (all_refused rest runtime' (late_closes now runtime ended))
              ∙ sym (strikes_ended (left runtime) runtime.expires_at now rest ended)
          | inr early ↦
              let less =
                ap₂ (λ n e. strikes n e rest) (one_less now runtime active early bound)
                  (same_end now runtime active early) in
              ap₂ (λ a l. a ∷ l) (struck now runtime active early)
                (ih runtime' (stays_active now runtime active early) ∙ less)
              ∙ sym (strikes_early (left runtime) runtime.expires_at now rest early)
        ]

    strikes_left : (times : List DateTime) → StrikesLeft times
    unfolding consume_all
    strikes_left [] = λ runtime active. refl
    strikes_left (now ∷ rest) = StrikesLeft-next now rest (strikes_left rest)

-- While the capability is active, requests for a fault strike as often as the fault has
-- occurrences left and not again, and from the first request at or after the end of the capability
-- on all are refused, also where a later reading of the clock is earlier.
pub consume_all-strikes :
    (source_id : String) (fault : PlanFault) (times : List DateTime) (runtime : PlanRunRuntime)
    → fault.occurrences ≤ u64_max
    → runtime.active ≡ true
    → consume_all source_id fault times runtime
      ≡ strikes
          (fault.occurrences
            - or_default (get (fault_key source_id fault) runtime.fault_occurrences))
          runtime.expires_at
          times
consume_all-strikes source_id fault times runtime bound =
    strikes_left source_id fault bound times runtime
