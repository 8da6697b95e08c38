-- ===== src/Judge/Statuses.antt =====
-- What the run status says of the sources, and when two maps of statuses match.
use fqdn_forge.Base.{
  ◌≡◌, ◌≢◌, refl, sym, ◌∙◌, ◌↔◌, ◌≤◌, ◌<◌, ◌⊎◌, inl, inr, Bool, true, false, not, ◌&&◌, List, [],
  ◌∷◌, arith, ltb, ◌==◌, if◌then◌else◌, Bool-cases, false≢true, length, In, all, any, keep, all_iff,
  In-of_any, any_of_In,
}
use fqdn_forge.BTreeMap.{BTreeMap, values}
use fqdn_forge.Model.Collector.{SourceStatus}
use fqdn_forge.Model.Truth.{RunStatus}
use fqdn_forge.Judge.Status.{is_success, is_cancelled, is_empty, derive_run_status}

module _ {A : Type 0} where
  length-keep-le : (p : A → Bool) (xs : List A) → length (keep p xs) ≤ length xs
  length-keep-le p [] = omega arith
  length-keep-le p (x ∷ xs) = ground (arith, length-keep-le p xs)

  length-keep-all :
      (p : A → Bool) (xs : List A) → (length (keep p xs) ≡ length xs) ↔ (all p xs ≡ true)
  length-keep-all p [] = (λ _. refl, λ _. refl)
  length-keep-all p (x ∷ xs) = ground (arith, length-keep-all p xs, length-keep-le p xs)

  length-keep-any : (p : A → Bool) (xs : List A) → (0 < length (keep p xs)) ↔ (any p xs ≡ true)
  length-keep-any p [] = ground arith
  length-keep-any p (x ∷ xs) = ground (arith, length-keep-any p xs)

  -- Not all is some not.
  all-not : (p : A → Bool) (xs : List A) → all p xs ≡ not (any (λ x. not (p x)) xs)
  all-not p [] = refl
  all-not p (x ∷ xs) = ground (arith, all-not p xs)

  all_test : (p : A → Bool) (xs : List A) → (length (keep p xs) == length xs) ≡ all p xs
  all_test p xs = ground (arith, length-keep-all p xs)

  any_test : (p : A → Bool) (xs : List A) → ltb 0 (length (keep p xs)) ≡ any p xs
  any_test p xs = ground (arith, length-keep-any p xs)

  -- Some element passes the test.
  abbrev pub Some : (A → Type 0) → List A → Type 0
  Some P xs = (x : A) × In x xs × P x

  Some-iff : (p : A → Bool) (xs : List A) → (any p xs ≡ true) ↔ Some (λ x. p x ≡ true) xs
  Some-iff p xs = (In-of_any p xs, λ t. any_of_In p xs t.0 t.1 t.2)

  -- No element passes the test, or not every one does.
  none_iff : (p : A → Bool) (xs : List A) → (any p xs ≡ false) ↔ ((x : A) → In x xs → p x ≡ false)
  none_iff p xs = (
    λ h x m. elim (Bool-cases (p x)) [
      | inl e ↦ absurd (false≢true (sym h ∙ any_of_In p xs x m e))
      | inr e ↦ e
    ],
    λ none_passes. elim (Bool-cases (any p xs)) [
      | inl e ↦
          let (x, m, hit) = In-of_any p xs e in absurd (false≢true (sym (none_passes x m) ∙ hit))
      | inr e ↦ e
    ],
  )

  Some-not_iff : (p : A → Bool) (xs : List A) → (all p xs ≡ false) ↔ Some (λ x. p x ≡ false) xs
  Some-not_iff p xs =
      let misses : A → Bool = λ x. not (p x) in
      let tests = all-not p xs in
      (
        λ h.
            let (x, m, e) = In-of_any misses xs (ground (arith, tests, h)) in
            (x, m, ground (arith, e)),
        λ (x, m, e). let found = any_of_In misses xs x m (rw e) in rw (tests, found) refl,
      )

iff_trans : {P Q R : Type 0} → P ↔ Q → Q ↔ R → P ↔ R
iff_trans f g = (λ p. g.0 (f.0 p), λ r. f.1 (g.1 r))

both_iff : {P Q R S : Type 0} → P ↔ Q → R ↔ S → (P × R) ↔ (Q × S)
both_iff f g = (λ t. (f.0 t.0, g.0 t.1), λ t. (f.1 t.0, g.1 t.1))

length-values : (s : BTreeMap SourceStatus) → length (values s) ≡ length s
length-values [] = refl
length-values (e ∷ s) = omega (arith, length-values s)

not_both : (s : SourceStatus) → is_success s ≡ true → is_cancelled s ≡ true → ⊥
not_both s h g = ground arith

-- The tests of `derive_run_status` on the lists of statuses.
derive_cases :
    (s : BTreeMap SourceStatus)
    → derive_run_status s ≡ (
        if not (is_empty s) && all is_cancelled (values s)
        then RunStatus.cancelled
        else if all is_success (values s)
        then RunStatus.success
        else if any is_success (values s)
        then RunStatus.partial_success
        else RunStatus.failure)
unfolding derive_run_status
derive_cases s =
    let counted = length-values s in
    let all_eq = all_test is_success (values s) in
    let any_eq = any_test is_success (values s) in rw (sym counted, all_eq, any_eq) refl

-- The cancelled are not among the successes.
cancelled_apart : (vs : List SourceStatus) → all is_cancelled vs ≡ true → any is_success vs ≡ false
cancelled_apart [] h = refl
cancelled_apart (v ∷ vs) h = ground (arith, not_both v, cancelled_apart vs)

-- How the three tests of one map of statuses depend on each other.
tests_agree :
    (s : BTreeMap SourceStatus)
    → ((is_empty s ≡ true)
        × (all is_cancelled (values s) ≡ true)
        × (all is_success (values s) ≡ true)
        × (any is_success (values s) ≡ false))
      ⊎ ((is_empty s ≡ false)
          × (all is_success (values s) ≡ true → any is_success (values s) ≡ true)
          × (all is_cancelled (values s) ≡ true → any is_success (values s) ≡ false))
tests_agree [] = inl (refl, refl, refl, refl)
tests_agree ((k, v) ∷ s) = inr (refl, (λ h. ground (arith, h)), cancelled_apart (v ∷ values s))

empty_iff : (s : BTreeMap SourceStatus) → (is_empty s ≡ false) ↔ (s ≢ [])
empty_iff [] = (λ h. cc, λ h. absurd (h refl))
empty_iff (e ∷ s) = (λ _ h. cc, λ _. refl)

module _ (s : BTreeMap SourceStatus) where
  cancelled_test :
      (derive_run_status s ≡ RunStatus.cancelled)
      ↔ ((is_empty s ≡ false) × (all is_cancelled (values s) ≡ true))
  cancelled_test = ground (arith, derive_cases s, tests_agree s)

  success_test : (derive_run_status s ≡ RunStatus.success) ↔ (all is_success (values s) ≡ true)
  success_test = ground (arith, derive_cases s, tests_agree s)

  partial_test :
      (derive_run_status s ≡ RunStatus.partial_success)
      ↔ ((any is_success (values s) ≡ true) × (all is_success (values s) ≡ false))
  partial_test = ground (arith, derive_cases s, tests_agree s)

  failure_test :
      (derive_run_status s ≡ RunStatus.failure)
      ↔ ((any is_success (values s) ≡ false) × (all is_cancelled (values s) ≡ false))
  failure_test = ground (arith, derive_cases s, tests_agree s)

  -- The run is cancelled exactly when there are sources and all of them were cancelled, successful
  -- exactly when all succeeded (also when there are none), a failure exactly when none succeeded and
  -- some was not cancelled, and a partial success exactly when some succeeded and some did not.
  pub derive_run_status_iff :
      ((derive_run_status s ≡ RunStatus.cancelled)
        ↔ ((s ≢ []) × ((v : SourceStatus) → In v (values s) → is_cancelled v ≡ true)))
      × ((derive_run_status s ≡ RunStatus.success)
          ↔ ((v : SourceStatus) → In v (values s) → is_success v ≡ true))
      × ((derive_run_status s ≡ RunStatus.failure) ↔ (
          ((v : SourceStatus) → In v (values s) → is_success v ≡ false)
          × Some (λ v. is_cancelled v ≡ false) (values s)))
      × ((derive_run_status s ≡ RunStatus.partial_success) ↔ (
          Some (λ v. is_success v ≡ true) (values s) × Some (λ v. is_success v ≡ false) (values s)))
  derive_run_status_iff = (
    iff_trans cancelled_test (both_iff (empty_iff s) (all_iff is_cancelled (values s))),
    iff_trans success_test (all_iff is_success (values s)),
    iff_trans failure_test
        (both_iff (none_iff is_success (values s)) (Some-not_iff is_cancelled (values s))),
    iff_trans partial_test
        (both_iff (Some-iff is_success (values s)) (Some-not_iff is_success (values s))),
  )
