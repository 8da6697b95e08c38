-- ===== src/Plan/Tiles.antt =====
-- The pages of a source's dataset, one after another.
use fqdn_forge.Base.{
  map-append, ℕ, zero, suc, ◌+◌, ◌-◌, ◌*◌, ◌≤◌, min, String, ◌≡◌, refl, sym, ap, ◌∙◌, inl, inr,
  List, [], ◌∷◌, ◌++◌, map, arith, saturating_add, saturating_mul, u64_max, if◌then◌else◌, ltb, ap₂,
  Bool-cases,
}
use fqdn_forge.Plan.Definition.{PlanSource, ExperimentPlan}
use fqdn_forge.Plan.Simulation.{dataset_record_count}
use fqdn_forge.Plan.Execution.{generated_fqdn, range_from, plan_source_page_records}
use native.Mathlib.Nat.{add-mul, suc-mul}

range_from-append :
    (a b c d n : ℕ) → a + b ≡ d → b + c ≡ n → range_from a b ++ range_from d c ≡ range_from a n
unfolding range_from
range_from-append a zero c d n e f = ap₂ range_from (omega arith) (omega arith)
range_from-append a (suc b) c d zero e f = absurd (omega arith)
range_from-append a (suc b) c d (suc n) e f =
    ap (λ ns. a ∷ ns) (range_from-append (suc a) b c d n (omega arith) (omega arith))

abbrev pub joined : {A : Type 0} → List (List A) → List A
joined [] = []
joined (xs ∷ rest) = xs ++ joined rest

-- A window from `start` on, cut at the total.
window :
    (start size total : ℕ)
    → range_from start (min (start + size) total - start)
      ≡ range_from (min start total) (min (start + size) total - min start total)
unfolding range_from
window start size total = elim (Bool-cases (ltb total start)) [
  | inl e ↦
      let none_left : min (start + size) total - start ≡ 0 = ground (arith, e) in
      let none_right : min (start + size) total - min start total ≡ 0 = ground (arith, e) in
      rw (none_left, none_right) refl
  | inr e ↦ let here : min start total ≡ start = ground (arith, e) in rw here refl
]

within : (n : ℕ) → n ≤ u64_max → (if ltb u64_max n then u64_max else n) ≡ n
within n h = ground arith

module _ (plan : ExperimentPlan) (source : PlanSource) (size : ℕ) where
  abbrev total : ℕ
  total = dataset_record_count plan.dataset.size

  abbrev name : ℕ → String
  name index = generated_fqdn plan source (saturating_add index 1)

  page-window :
      (k : ℕ)
      → k * size + size ≤ u64_max
      → plan_source_page_records plan source (suc k) size
        ≡ map name
            (range_from (min (k * size) total) (min (k * size + size) total - min (k * size) total))
  unfolding plan_source_page_records
  page-window k small =
      let start : saturating_mul (suc k - 1) size ≡ k * size =
        let less : suc k - 1 ≡ k = omega arith in rw less (within (k * size) (omega arith)) in
      let end : saturating_add (k * size) size ≡ k * size + size = within (k * size + size) small in
      rw (start, end) (ap (map name) (window (k * size) size total))

  -- The pages of a source from the `k`-th on.
  abbrev pages_from : ℕ → ℕ → List String
  pages_from k n =
      joined (map (λ page. plan_source_page_records plan source page size) (range_from (suc k) n))

  pages-join :
      (k n : ℕ)
      → (k + n) * size ≤ u64_max
      → pages_from k n
        ≡ map name
            (range_from (min (k * size) total) (min ((k + n) * size) total - min (k * size) total))
  unfolding range_from
  pages-join k zero small =
      let same : k + 0 ≡ k = omega arith in
      let none_left : min (k * size) total - min (k * size) total ≡ 0 = omega arith in
      rw (same, none_left) refl
  pages-join k (suc n) small =
      let next : suc k * size ≡ k * size + size = suc-mul k size in
      let all : (k + suc n) * size ≡ (suc k + n) * size = ap (λ m. m * size) (omega arith) in
      let whole : (suc k + n) * size ≡ suc k * size + n * size = add-mul (suc k) n size in
      let ih = pages-join (suc k) n (omega (arith, small, all)) in
      let m0 = min (k * size) total in
      let m1 = min (suc k * size) total in
      let m2 = min ((suc k + n) * size) total in
      ap₂ (λ xs ys. xs ++ ys) (page-window k (omega (arith, small, all, whole, next))) ih
      ∙ sym (
          map-append name (range_from m0 (min (k * size + size) total - m0))
            (range_from m1 (m2 - m1)))
      ∙ ap (map name) (
          range_from-append m0 (min (k * size + size) total - m0) (m2 - m1) m1
            (min ((k + suc n) * size) total - m0) (omega (arith, next))
            (omega (arith, next, whole, all)))

-- The first `n` pages of a source, one after another, are the first `n * size` names of its dataset in
-- order, or all of them if there are fewer: no name is left out and none comes twice. The offset of
-- the last page is to fit a `u64`.
pub plan_source_page_records-joined :
    (plan : ExperimentPlan) (source : PlanSource) (size n : ℕ)
    → n * size ≤ u64_max
    → joined (map (λ page. plan_source_page_records plan source page size) (range_from 1 n))
      ≡ map
          (λ index. generated_fqdn plan source (saturating_add index 1))
          (range_from 0 (min (n * size) (dataset_record_count plan.dataset.size)))
plan_source_page_records-joined plan source size n small =
    let total = dataset_record_count plan.dataset.size in
    let same : 0 + n ≡ n = omega arith in
    let zero_start : min (0 * size) total ≡ 0 = omega arith in
    let width : min ((0 + n) * size) total - min (0 * size) total ≡ min (n * size) total =
      rw (same, zero_start) (omega arith) in
    pages-join plan source size 0 n (rw same small)
    ∙ ap (map (λ index. generated_fqdn plan source (saturating_add index 1)))
        (ap₂ range_from zero_start width)
