-- ===== src/Plan/Content.antt =====
-- What the checks of a plan on its expected numbers of requests and on its JSON text say.
use fqdn_forge.Base.{
  ℕ, ◌≤◌, String, ◌≡◌, refl, sym, ◌∙◌, ◌⊎◌, inl, inr, Bool, true, false, false≢true, ◌&&◌, ◌||◌,
  not, List, [], ◌∷◌, arith, if◌then◌else◌, All, In, ◌==◌, any, all, all_iff, All-In, length, split,
  is_empty_text, contains_text, to_ascii_lowercase, is_ascii_digit,
}
use fqdn_forge.BTreeSet.{contains, contains_iff}
use fqdn_forge.Domain.{is_dot}
use fqdn_forge.Plan.Definition.{PlanSource}
use fqdn_forge.Plan.Checks.{digits_value, parses_as_u8, contains_ip_literal}
use fqdn_forge.Plan.Validation.{bad_id, source_ids, prohibited, suspicious, mentions}

-- Four numbers of at most 255 with dots between them.
abbrev pub IsAddress : String → Type 0
IsAddress part =
    (length (split is_dot part) ≡ 4)
    × All (λ octet. (is_empty_text octet ≡ false) × (digits_value 0 octet ≤ 255))
        (split is_dot part)

-- A JSON text without these words for URLs, scripts and credentials, in any case of ASCII letters, and
-- without addresses, which are looked for between the characters that are neither digits nor dots.
pub record Vetted (json : String) : Type 0 where
  pub no_scripts :
      All
        (λ word. contains_text (to_ascii_lowercase json) word ≡ false)
        ("http://" ∷ "https://" ∷ "javascript:" ∷ "powershell" ∷ "function(" ∷ "=>" ∷ [])
  pub no_addresses :
      All (λ part. IsAddress part → ⊥) (split (λ c. not (is_ascii_digit c) && not (is_dot c)) json)
  pub no_credentials :
      All
        (λ word. contains_text (to_ascii_lowercase json) word ≡ false)
        ("authorization" ∷ "cookie" ∷ "password" ∷ "bearer " ∷ "sk-" ∷ "ghp_" ∷ [])

module _ {A : Type 0} (p : A → Bool) {P : A → Type 0} (f : (a : A) → p a ≡ false → P a) where
  pub All-of_any : (xs : List A) → any p xs ≡ false → All P xs
  All-of_any [] h = tt
  All-of_any (x ∷ xs) h = (f x (ground (arith, h)), All-of_any xs (ground (arith, h)))

-- The test of `contains_ip_literal` on one part.
abbrev octets_test : String → Bool
octets_test part =
    length (split is_dot part) == 4
    && all (λ octet. not (is_empty_text octet) && parses_as_u8 octet) (split is_dot part)

IsAddress-passes : (part : String) → IsAddress part → octets_test part ≡ true
unfolding parses_as_u8
IsAddress-passes part (four, small) =
    let every : all (λ o. not (is_empty_text o) && parses_as_u8 o) (split is_dot part) ≡ true =
      (all_iff (λ o. not (is_empty_text o) && parses_as_u8 o) (split is_dot part)).1 (λ o m.
        let (some_digit, bound) = All-In _ (split is_dot part) small o m in
        ground (arith, some_digit, bound)) in
    ground (arith, four, every)

contains_ip_literal-eq-false :
    (json : String)
    → contains_ip_literal json ≡ false
    → All (λ part. IsAddress part → ⊥) (split (λ c. not (is_ascii_digit c) && not (is_dot c)) json)
unfolding contains_ip_literal
contains_ip_literal-eq-false json h =
    All-of_any octets_test (λ part miss is. false≢true (sym miss ∙ IsAddress-passes part is))
      (split (λ c. not (is_ascii_digit c) && not (is_dot c)) json) h

pub json-Vetted :
    (json : String)
    → mentions prohibited json ≡ false
    → contains_ip_literal json ≡ false
    → mentions suspicious json ≡ false
    → Vetted json
json-Vetted json scripts address credentials = record {
  no_scripts = All-of_any (contains_text (to_ascii_lowercase json)) (λ w h. h) prohibited scripts;
  no_addresses = contains_ip_literal-eq-false json address;
  no_credentials =
      All-of_any (contains_text (to_ascii_lowercase json)) (λ w h. h) suspicious credentials;
}

-- An identifier that was collected is that of a source.
source_ids-In :
    (ss : List PlanSource) (ids : List String) (k : String)
    → In k (source_ids ids ss)
    → In k ids ⊎ ((s : PlanSource) × In s ss × (s.id ≡ k))
unfolding source_ids
source_ids-In [] ids k m = inl m
source_ids-In (s ∷ ss) ids k m = by_case (bad_id ids s.id) (source_ids-In ss _ k m)
  where
    by_case :
        (b : Bool)
        → In k (if b then ids else s.id ∷ ids) ⊎ ((t : PlanSource) × In t ss × (t.id ≡ k))
        → In k ids ⊎ ((t : PlanSource) × In t (s ∷ ss) × (t.id ≡ k))
    by_case b (inr (t, n, e)) = inr (t, inr n, e)
    by_case true (inl n) = inl n
    by_case false (inl (inl e)) = inr (s, inl refl, e)
    by_case false (inl (inr n)) = inl n

-- Each expected number of requests is positive and names a source.
abbrev pub Known : List PlanSource → List (String × ℕ) → Type 0
Known ss expected = All (λ e. ((s : PlanSource) × In s ss × (s.id ≡ e.0)) × (1 ≤ e.1)) expected

pub expected-Known :
    (ss : List PlanSource) (expected : List (String × ℕ))
    → any (λ e. not (contains (source_ids [] ss) e.0) || e.1 == 0) expected ≡ false
    → Known ss expected
expected-Known ss expected h =
    All-of_any (λ e. not (contains (source_ids [] ss) e.0) || e.1 == 0)
      (λ e miss.
        let m = (contains_iff (source_ids [] ss) e.0).0 (ground (arith, miss)) in
        (elim (source_ids-In ss [] e.0 m) [ inl n ↦ absurd n | inr s ↦ s ], ground (arith, miss)))
      expected h
