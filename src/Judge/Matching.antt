-- ===== src/Judge/Matching.antt =====
-- When two maps of source statuses match.
use fqdn_forge.Base.{
  String, ◌≡◌, refl, sym, ap, ap₂, subst, ◌∙◌, ◌↔◌, ◌⊎◌, inl, inr, true, Option, none, some, [],
  ◌∷◌, arith, &&_iff, ==_iff, ◌==◌, Bool-cases, Option-cases, false≢true, of_some, length, In, all,
  all_iff, str_eq, eq_iff, eq_refl, eq_by_iff,
}
use fqdn_forge.BTreeMap.{BTreeMap, get, keys}
use fqdn_forge.BTreeMap.Order.{IsRising, Above-In, not_self, eq_of_subset, length-subset-le}
use fqdn_forge.Model.Collector.{SourceStatus, SourceStatus-discrete}
use fqdn_forge.Judge.Status.{
  is_success, source_status_equivalent, status_expected, source_statuses_match,
}

module _ {V : Type 0} where
  length-keys : (m : BTreeMap V) → length (keys m) ≡ length m
  length-keys [] = refl
  length-keys (e ∷ m) = omega (arith, length-keys m)

  -- A key that is there has an entry.
  keys-In : (m : BTreeMap V) (k : String) → In k (keys m) → (v : V) × (get k m ≡ some v)
  unfolding get
  keys-In [] k h = absurd h
  keys-In ((j, v) ∷ m) k (inl e) = (v, ground (arith, e, eq_iff j k))
  keys-In ((j, v) ∷ m) k (inr h) = elim (Bool-cases (str_eq j k)) [
    | inl e ↦ (v, rw e refl)
    | inr e ↦ let (w, found) = keys-In m k h in (w, rw e found)
  ]

  get-In : (m : BTreeMap V) (k : String) (v : V) → get k m ≡ some v → In (k, v) m
  unfolding get
  get-In [] k v h = cc
  get-In ((j, w) ∷ m) k v h = elim (Bool-cases (str_eq j k)) [
    | inl e ↦ inl (ap₂ (λ a b. (a, b)) ((eq_iff j k).0 e) (of_some (sym (rw e refl) ∙ h)))
    | inr e ↦ inr (get-In m k v (sym (rw e refl) ∙ h))
  ]

  In-keys : (m : BTreeMap V) (k : String) (v : V) → In (k, v) m → In k (keys m)
  In-keys [] k v h = absurd h
  In-keys (e ∷ m) k v (inl h) = inl (ap (λ t. t.0) h)
  In-keys (e ∷ m) k v (inr h) = inr (In-keys m k v h)

  -- With rising keys every entry is the one that is found.
  get-of_In :
      (m : BTreeMap V) (k : String) (v : V) → IsRising (keys m) → In (k, v) m → get k m ≡ some v
  unfolding get
  get-of_In [] k v r h = absurd h
  get-of_In (e ∷ m) k v r (inl h) = rw (h, eq_refl k) refl
  get-of_In (e ∷ m) k v r (inr h) = elim (Bool-cases (str_eq e.0 k)) [
    | inl same ↦ absurd (
        not_self e.0 k (Above-In e.0 k (keys m) r.0 (In-keys m k v h))
          (sym ((eq_iff e.0 k).0 same)))
    | inr other ↦ rw other (get-of_In m k v r.1 h)
  ]

-- Two statuses that the judge takes for the same: both are a success, or they are equal.
abbrev pub Same : SourceStatus → SourceStatus → Type 0
Same a b = ((is_success a ≡ true) × (is_success b ≡ true)) ⊎ (a ≡ b)

source_status_equivalent_iff :
    (a b : SourceStatus) → (source_status_equivalent a b ≡ true) ↔ Same a b
unfolding source_status_equivalent
source_status_equivalent_iff a b = ground (arith, eq_by_iff SourceStatus-discrete a b)

-- What the two maps have for one source.
abbrev pub Agree : Option SourceStatus → Option SourceStatus → Type 0
Agree none none = Unit
Agree (some a) (some b) = Same a b
Agree none (some b) = ⊥
Agree (some a) none = ⊥

Agree-some :
    (v : SourceStatus) (o : Option SourceStatus)
    → Agree (some v) o
    → (w : SourceStatus) × (o ≡ some w) × Same v w
Agree-some v none h = absurd h
Agree-some v (some w) h = (w, refl, h)

status_expected_iff :
    (expected : BTreeMap SourceStatus) (k : String) (v : SourceStatus)
    → (status_expected expected (k, v) ≡ true) ↔ Agree (some v) (get k expected)
unfolding status_expected
status_expected_iff expected k v = elim (Option-cases (get k expected)) [
  | inl e ↦ rw e ((λ h. false≢true h), λ h. absurd h)
  | inr (w, e) ↦ rw e (source_status_equivalent_iff v w)
]

-- Where the maps agree, each source of the one is a source of the other.
keys_subset :
    (a b : BTreeMap SourceStatus)
    → ((k : String) (v : SourceStatus) → get k a ≡ some v → (w : SourceStatus) × (get k b ≡ some w))
    → (k : String) → In k (keys a)
    → In k (keys b)
keys_subset a b every k m =
    let (v, found) = keys-In a k m in
    let (w, there) = every k v found in In-keys b k w (get-In b k w there)

Agree-flip :
    (o : Option SourceStatus) (w : SourceStatus)
    → Agree o (some w)
    → (v : SourceStatus) × (o ≡ some v)
Agree-flip none w h = absurd h
Agree-flip (some v) w h = (v, refl)

module _ (actual expected : BTreeMap SourceStatus) (actual_rising : IsRising (keys actual))
    (expected_rising : IsRising (keys expected)) where
  from_agreement :
      ((k : String) → Agree (get k actual) (get k expected))
      → source_statuses_match actual expected ≡ true
  unfolding source_statuses_match
  from_agreement agree =
      let there = keys_subset actual expected (λ k v found.
        let (w, e, _) =
          Agree-some v (get k expected) (subst (λ o. Agree o (get k expected)) found (agree k)) in
        (w, e)) in
      let back = keys_subset expected actual (λ k w found.
        Agree-flip (get k actual) w (subst (λ o. Agree (get k actual) o) found (agree k))) in
      let lengths : length actual ≡ length expected = omega (
        arith,
        length-keys actual,
        length-keys expected,
        length-subset-le (keys actual) (keys expected) actual_rising expected_rising there,
        length-subset-le (keys expected) (keys actual) expected_rising actual_rising back,
      ) in
      (&&_iff (length actual == length expected) (all (status_expected expected) actual)).1 (
        (==_iff (length actual) (length expected)).1 lengths,
        (all_iff (status_expected expected) actual).1 (λ (k, v) m.
            (status_expected_iff expected k v).1 (
              subst (λ o. Agree o (get k expected)) (get-of_In actual k v actual_rising m)
                (agree k))),
      )

  to_agreement :
      source_statuses_match actual expected ≡ true
      → (k : String) → Agree (get k actual) (get k expected)
  unfolding source_statuses_match
  to_agreement h k =
      let (same_length, passes) =
        (&&_iff (length actual == length expected) (all (status_expected expected) actual)).0 h in
      let entry : (j : String) (v : SourceStatus)
          → get j actual ≡ some v
          → Agree (some v) (get j expected) =
        λ j v found.
          (status_expected_iff expected j v).0 (
            (all_iff (status_expected expected) actual).0 passes (j, v)
              (get-In actual j v found)) in
      let there =
        keys_subset actual expected (λ j v found.
          let (w, e, _) = Agree-some v (get j expected) (entry j v found) in (w, e)) in
      let same_keys : keys actual ≡ keys expected =
        eq_of_subset (keys actual) (keys expected) actual_rising expected_rising there (
          omega (
            arith,
            length-keys actual,
            length-keys expected,
            (==_iff (length actual) (length expected)).0 same_length,
          )) in
      elim (Option-cases (get k actual)) [
        | inr (v, found) ↦ subst (λ o. Agree o (get k expected)) (sym found) (entry k v found)
        | inl missing ↦ elim (Option-cases (get k expected)) [
          | inl none_there ↦ rw (missing, none_there) tt
          | inr (w, found) ↦
              let m = In-keys expected k w (get-In expected k w found) in
              let (v, e) = keys-In actual k (subst (λ l. In k l) (sym same_keys) m) in
              cc (missing, e)
        ]
      ]

  -- For maps whose keys rise, as those of a `BTreeMap` do, the statuses match exactly when for every
  -- source both maps have nothing, or both have a status and the two are a success or are equal.
  pub source_statuses_match_iff :
      (source_statuses_match actual expected ≡ true)
      ↔ ((k : String) → Agree (get k actual) (get k expected))
  source_statuses_match_iff = (to_agreement, from_agreement)
