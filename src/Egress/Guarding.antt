-- ===== src/Egress/Guarding.antt =====
-- What the guard lets through, and what it keeps of the rest.
use fqdn_forge.Base.{
  String, ◌≡◌, ◌⊎◌, refl, sym, subst, ◌↔◌, Bool, true, not, Option, none, some, List, [], ◌∷◌,
  arith, eq_iff, false≢true, of_some, is_some_and-str_eq, is_some, is_some_and, Bool-cases, inl,
  inr, Option-cases,
}
use fqdn_forge.Lab.Exec.{ok}
use fqdn_forge.Egress.{Urls, is_local, validate}

module _ (x : Urls) where
  -- An `http` URL of the host 127.0.0.1 without a user name and without a password.
  abbrev pub IsLoopback : x.Url → Type 0
  IsLoopback url =
      (x.scheme url ≡ "http")
      × (x.host_str url ≡ some "127.0.0.1")
      × (x.username url ≡ "")
      × (x.password url ≡ none)

  no_password : (o : Option String) → (not (is_some o) ≡ true) ↔ (o ≡ none)
  no_password none = ((λ _. refl), λ _. refl)
  no_password (some p) = ((λ h. absurd (false≢true h)), λ h. cc)

  is_local_iff : (url : x.Url) → (is_local x url ≡ true) ↔ IsLoopback url
  unfolding is_local
  is_local_iff url =
      let scheme = eq_iff (x.scheme url) "http" in
      let host = is_some_and-str_eq (x.host_str url) "127.0.0.1" in
      let user = eq_iff (x.username url) "" in
      let password = no_password (x.password url) in ground (arith, scheme, host, user, password)

  -- The addresses of a run of the guard, and what it has kept at the end.
  unfoldable pub validate_all : List String → List String → List String
  unfolding validate
  validate_all [] rejected = rejected
  validate_all (value ∷ rest) rejected = validate_all rest (validate x value rejected).1

  abbrev pub is_allowed : String → Bool
  is_allowed value = is_some_and (x.parse value) (is_local x)

  is_allowed_iff :
      (value : String)
      → (is_allowed value ≡ true) ↔ ((url : x.Url) × (x.parse value ≡ some url) × IsLoopback url)
  is_allowed_iff value = elim (Option-cases (x.parse value)) [
    | inl e ↦ rw e ((λ h. absurd (false≢true h)), λ (url, f, l). cc)
    | inr (url, e) ↦ rw e (
      (λ h. (url, refl, (is_local_iff url).0 h)),
      λ (other, f, l). (is_local_iff url).1 (subst IsLoopback (sym (of_some f)) l),
    )
  ]

  validate_test :
      (value : String) (rejected : List String)
      → ((validate x value rejected).0 ≡ ok tt) ↔ (is_allowed value ≡ true)
  unfolding validate
  validate_test value rejected = elim (Bool-cases (is_allowed value)) [
    | inl e ↦ rw e ((λ _. refl), λ _. refl)
    | inr e ↦ rw e ((λ h. cc), λ h. cc)
  ]

-- What the crate `url` documents of the setters: each changes its own part and no other, and sets it,
-- where it fails only on a URL that has no such part. `query` is the crate's accessor.
pub record SettersLawful (x : Urls) (query : x.Url → Option String) : Type 0 where
  pub username : (u : x.Url) → x.username (x.set_username "" u) ≡ ""
  pub username_scheme : (t : String) (u : x.Url) → x.scheme (x.set_username t u) ≡ x.scheme u
  pub username_host : (t : String) (u : x.Url) → x.host_str (x.set_username t u) ≡ x.host_str u
  pub password : (u : x.Url) → x.password (x.set_password none u) ≡ none
  pub password_username :
      (o : Option String) (u : x.Url) → x.username (x.set_password o u) ≡ x.username u
  pub password_scheme : (o : Option String) (u : x.Url) → x.scheme (x.set_password o u) ≡ x.scheme u
  pub password_host :
      (o : Option String) (u : x.Url) → x.host_str (x.set_password o u) ≡ x.host_str u
  pub query_set : (o : Option String) (u : x.Url) → query (x.set_query o u) ≡ o
  pub query_username : (o : Option String) (u : x.Url) → x.username (x.set_query o u) ≡ x.username u
  pub query_password : (o : Option String) (u : x.Url) → x.password (x.set_query o u) ≡ x.password u
  pub query_scheme : (o : Option String) (u : x.Url) → x.scheme (x.set_query o u) ≡ x.scheme u
  pub query_host : (o : Option String) (u : x.Url) → x.host_str (x.set_query o u) ≡ x.host_str u

module _ (x : Urls) (query : x.Url → Option String) where
  -- The address is let through.
  abbrev pub Passes : String → Type 0
  Passes value = (url : x.Url) × (x.parse value ≡ some url) × IsLoopback x url

  -- The text of a URL of the same scheme and host as the address, without user name, password and query.
  pub record Stripped (url : x.Url) (text : String) : Type 0 where
    pub shown : x.Url
    pub printed : text ≡ x.to_string shown
    pub same_scheme : x.scheme shown ≡ x.scheme url
    pub same_host : x.host_str shown ≡ x.host_str url
    pub no_username : x.username shown ≡ ""
    pub no_secret : x.password shown ≡ none
    pub no_query : query shown ≡ none

  abbrev pub Redacts : String → String → Type 0
  Redacts value text =
      ((x.parse value ≡ none) × (text ≡ "<invalid-url>"))
      ⊎ ((url : x.Url) × (x.parse value ≡ some url) × Stripped url text)

  -- The texts that are kept of a sequence of addresses.
  pub data Kept : List String → List String → Type 0 where
    no_address : Kept [] []
    passed :
        {value : String} {values texts : List String}
        → Passes value
        → Kept values texts
        → Kept (value ∷ values) texts
    refused :
        {value text : String} {values texts : List String}
        → (Passes value → ⊥)
        → Redacts value text
        → Kept values texts
        → Kept (value ∷ values) (text ∷ texts)

-- An address is let through exactly when it is an `http` URL of 127.0.0.1 without a user name and
-- without a password.
pub validate-ok_iff :
    (x : Urls) (value : String) (rejected : List String)
    → ((validate x value rejected).0 ≡ ok tt)
      ↔ ((url : x.Url) × (x.parse value ≡ some url) × IsLoopback x url)
validate-ok_iff x value rejected =
    let test = validate_test x value rejected in
    let allowed = is_allowed_iff x value in ((λ h. allowed.0 (test.0 h)), λ h. test.1 (allowed.1 h))
