-- ===== src/Domain/Scope.antt =====
-- Which candidates are in scope.
use Prim.Native.String.{◌++◌ as append}
use text.Mathlib.TextLemmas.{nil-append, cons-append, nil≢cons, tail-eq_of_cons-eq}
use fqdn_forge.Base.{
  String, ◌≡◌, ◌≢◌, refl, sym, ap, subst, ◌∙◌, ◌↔◌, ◌⊎◌, inl, inr, Bool, true, false, [], ◌∷◌,
  arith, Result, ok, err, str_eq, eq_iff, if◌then◌else◌, Bool-cases, false≢true, concat,
  starts_with, ends_with, trim,
}
use fqdn_forge.Model.Collector.{FilterReason}
use fqdn_forge.Domain.{HostParser, normalize_domain, in_scope, accept_candidate}

-- The text is the other one behind some prefix.
abbrev pub EndsWith : String → String → Type 0
EndsWith s t = (p : String) × (s ≡ append p t)

ends_with_iff : (s t : String) → (ends_with s t ≡ true) ↔ EndsWith s t
unfolding ends_with
ends_with_iff s t = (to s, λ (p, e). from s p e)
  where
    whole : (u : String) → u ≡ t → ends_with u t ≡ true
    whole String.[] e = (eq_iff "" t).1 e
    whole (String.◌∷◌ c u) e = rw ((eq_iff (String.◌∷◌ c u) t).1 e) refl

    to : (u : String) → ends_with u t ≡ true → EndsWith u t
    to String.[] h = ("", (eq_iff "" t).0 h ∙ sym (nil-append t))
    to (String.◌∷◌ c u) h = elim (Bool-cases (str_eq (String.◌∷◌ c u) t)) [
      | inl e ↦ ("", (eq_iff (String.◌∷◌ c u) t).0 e ∙ sym (nil-append t))
      | inr e ↦
          let (p, f) = to u (sym (rw e refl) ∙ h) in
          (String.◌∷◌ c p, ap (λ l. String.◌∷◌ c l) f ∙ sym (cons-append c p t))
    ]

    from : (u p : String) → u ≡ append p t → ends_with u t ≡ true
    from u String.[] e = whole u (e ∙ nil-append t)
    from String.[] (String.◌∷◌ c p) e = absurd (nil≢cons (e ∙ cons-append c p t))
    from (String.◌∷◌ d u) (String.◌∷◌ c p) e =
        ground (arith, from u p (tail-eq_of_cons-eq (e ∙ cons-append c p t)))

in_scope_iff :
    (root_domain : String) (include_root : Bool) (n : Result FilterReason String) (d : String)
    → (in_scope root_domain include_root n ≡ ok d) ↔ (
        (n ≡ ok d)
        × (((d ≡ root_domain) × (include_root ≡ true))
            ⊎ ((d ≢ root_domain) × EndsWith d (concat ("." ∷ root_domain ∷ [])))))
unfolding in_scope
in_scope_iff root_domain include_root (err reason) d = ((λ h. absurd (cc h)), λ t. absurd (cc t.0))
in_scope_iff root_domain include_root (ok n) d = elim (Bool-cases (str_eq n root_domain)) [
  | inl e ↦ rw e (at_root include_root ((eq_iff n root_domain).0 e))
  | inr e ↦ elim (Bool-cases (ends_with n suffix)) [
    | inl f ↦
        rw (e, f)
          (
            (λ h.
                let same = ok_inj h in
                (
                  h,
                  inr (
                    (λ p. false≢true (sym e ∙ (eq_iff n root_domain).1 (same ∙ p))),
                    subst (λ m. EndsWith m suffix) same ((ends_with_iff n suffix).0 f),
                  ),
                )),
            λ t. t.0,
          )
    | inr f ↦
        rw (e, f)
          (
            (λ h. absurd (cc h)),
            λ (h, alternative).
                let same = ok_inj h in
                absurd (elim alternative [
                  | inl (p, _) ↦ false≢true (sym e ∙ (eq_iff n root_domain).1 (same ∙ p))
                  | inr (_, w) ↦ false≢true (
                      sym f
                      ∙ (ends_with_iff n suffix).1 (subst (λ m. EndsWith m suffix) (sym same) w))
                ]),
          )
  ]
]
  where
    suffix : String
    suffix = concat ("." ∷ root_domain ∷ [])

    ok_inj : {a b : String} → ◌≡◌ {A = Result FilterReason String} (ok a) (ok b) → a ≡ b
    ok_inj h = cc

    at_root :
        (b : Bool)
        → n ≡ root_domain
        → ((if b then ok n else err FilterReason.root_excluded) ≡ ok d) ↔ (
            (◌≡◌ {A = Result FilterReason String} (ok n) (ok d))
            × (((d ≡ root_domain) × (b ≡ true)) ⊎ ((d ≢ root_domain) × EndsWith d suffix)))
    at_root true p = ((λ h. (h, inl (sym (ok_inj h) ∙ p, refl))), λ t. t.0)
    at_root false p = (
      (λ h. absurd (cc h)),
      λ (h, alternative). absurd (elim alternative [
        | inl (_, q) ↦ false≢true q
        | inr (other, _) ↦ other (sym (ok_inj h) ∙ p)
      ]),
    )

-- A candidate is accepted as a name exactly when it is no wildcard, normalizes to that name, and the name
-- is the root domain, where that is included, or another one that ends with a dot and the root domain.
pub accept_candidate_iff :
    (parse : HostParser) (value root_domain : String) (include_root : Bool) (d : String)
    → (accept_candidate parse value root_domain include_root ≡ ok d) ↔ (
        (starts_with (trim value) "*." ≡ false)
        × (normalize_domain parse (trim value) ≡ ok d)
        × (((d ≡ root_domain) × (include_root ≡ true))
            ⊎ ((d ≢ root_domain) × EndsWith d (concat ("." ∷ root_domain ∷ [])))))
unfolding accept_candidate
accept_candidate_iff parse value root_domain include_root d =
    elim (Bool-cases (starts_with (trim value) "*.")) [
      | inl e ↦ rw e ((λ h. absurd (cc h)), λ t. absurd (false≢true (sym t.0)))
      | inr e ↦
          let scope =
            in_scope_iff root_domain include_root (normalize_domain parse (trim value)) d in
          rw e ((λ h. let t = scope.0 h in (refl, t.0, t.1)), λ t. scope.1 (t.1, t.2))
    ]
