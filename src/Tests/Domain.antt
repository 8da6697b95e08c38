-- ===== src/Tests/Domain.antt =====
-- Names of domains, with a parser that takes every host as a domain.
use fqdn_forge.Base.{
  String, ◌≡◌, ◌≢◌, ◌↔◌, ◌⊎◌, refl, true, false, some, [], ◌∷◌, ok, concat, starts_with, trim,
}
use fqdn_forge.Domain.{Host, HostParser, normalize_domain, accept_candidate}
use fqdn_forge.Domain.Names.{IsDomainName, normalize_domain-IsDomainName}
use fqdn_forge.Domain.Scope.{EndsWith, accept_candidate_iff}

abbrev root : String
root = "acme.test"

abbrev name : String
name = "www.acme.test"

abbrev parse : HostParser
parse = λ t. some (Host.domain t)

normalize_domain-IsDomainName_example : IsDomainName "www.acme.test"
unfolding normalize_domain
normalize_domain-IsDomainName_example =
    normalize_domain-IsDomainName parse " `WWW.Acme.test.`" "www.acme.test" refl

accept_candidate_iff_example : (accept_candidate parse "Www.acme.test" root false ≡ ok name) ↔ (
    (starts_with (trim "Www.acme.test") "*." ≡ false)
    × (normalize_domain parse (trim "Www.acme.test") ≡ ok name)
    × (((name ≡ root) × (false ≡ true))
        ⊎ ((name ≢ root) × EndsWith name (concat ("." ∷ root ∷ [])))))
accept_candidate_iff_example = accept_candidate_iff parse "Www.acme.test" root false name
