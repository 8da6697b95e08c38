-- ===== src/Tests/Egress.antt =====
-- The guard at concrete addresses, with a parser that knows two of them.
use fqdn_forge.Base.{
  String, ◌≡◌, ◌↔◌, refl, Option, none, some, List, [], ◌∷◌, str_eq, if◌then◌else◌, concat,
}
use fqdn_forge.Lab.Exec.{ok}
use fqdn_forge.Egress.{Urls, validate}
use fqdn_forge.Egress.Guarding.{IsLoopback, validate_all, validate-ok_iff}

-- An `http` URL by its parts.
pub record Address : Type 0 where
  pub host : String
  pub user : String
  pub secret : Option String
  pub query : Option String

abbrev own_host : Address
own_host = record { host = "127.0.0.1"; user = ""; secret = none; query = none }

abbrev with_secrets : Address
with_secrets = record { host = "acme.test"; user = "u"; secret = some "p"; query = some "k=1" }

abbrev known : String → Option Address
known t =
    if str_eq t "http://127.0.0.1/"
    then some own_host
    else if str_eq t "http://u:p@acme.test/?k=1"
    then some with_secrets
    else none

abbrev or_nothing : String → Option String → String
or_nothing sign none = ""
or_nothing sign (some t) = concat (sign ∷ t ∷ [])

abbrev pub urls : Urls
urls = record {
  Url = Address;
  parse = known;
  scheme = λ u. "http";
  host_str = λ u. some u.host;
  username = λ u. u.user;
  password = λ u. u.secret;
  set_username = λ name u. record u { user = name };
  set_password = λ password u. record u { secret = password };
  set_query = λ query u. record u { query = query };
  to_string = λ u.
      concat
        ("http://" ∷ u.user ∷ or_nothing ":" u.secret ∷ u.host ∷ "/" ∷ or_nothing "?" u.query ∷ []);
}

validate-ok_iff_example :
    ((validate urls "http://127.0.0.1/" []).0 ≡ ok tt)
    ↔ ((url : Address) × (known "http://127.0.0.1/" ≡ some url) × IsLoopback urls url)
validate-ok_iff_example = validate-ok_iff urls "http://127.0.0.1/" []

abbrev addresses : List String
addresses = "http://u:p@acme.test/?k=1" ∷ "http://127.0.0.1/" ∷ "acme" ∷ []

-- What is kept of them.
kept_texts : validate_all urls addresses [] ≡ "http://acme.test/" ∷ "<invalid-url>" ∷ []
unfolding validate_all
kept_texts = refl
