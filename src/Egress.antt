-- ===== src/Egress.antt =====
-- crates/lab-core/src/egress.rs: the guard that keeps the reference runner on the local host.
pub mod Guarding
use fqdn_forge.Base.{
  ℕ, String, Bool, true, false, ◌&&◌, not, Option, none, some, List, [], ◌∷◌, ◌++◌, str_eq,
  if◌then◌else◌, is_some, is_some_and,
}
use fqdn_forge.Lab.Exec.{Result, ok, err}

-- What the guard uses of the crate `url`. A setter that fails leaves the URL as it is.
pub record Urls : Type 1 where
  pub Url : Type 0
  pub parse : String → Option Url
  pub scheme : Url → String
  pub host_str : Url → Option String
  pub username : Url → String
  pub password : Url → Option String
  pub set_username : String → Url → Url
  pub set_password : Option String → Url → Url
  pub set_query : Option String → Url → Url
  pub to_string : Url → String

pub record EgressViolation : Type 0 where
  pub url : String

module _ (x : Urls) where
  unfoldable pub is_local : x.Url → Bool
  is_local url =
      str_eq (x.scheme url) "http"
      && is_some_and (x.host_str url) (λ host. str_eq host "127.0.0.1")
      && str_eq (x.username url) ""
      && not (is_some (x.password url))

  unfoldable pub redacted : Option x.Url → String
  redacted none = "<invalid-url>"
  redacted (some url) = x.to_string (x.set_query none (x.set_password none (x.set_username "" url)))

  unfoldable pub redact_url : String → String
  unfolding redacted
  redact_url value = redacted (x.parse value)

  -- `EgressGuard::validate`, on the list behind the lock.
  unfoldable pub validate : String → List String → Result EgressViolation Unit × List String
  unfolding is_local redact_url
  validate value rejected =
      if is_some_and (x.parse value) is_local
      then (ok tt, rejected)
      else let safe = redact_url value in (err (record { url = safe }), rejected ++ safe ∷ [])
