-- ===== src/Domain.antt =====
-- crates/lab-core/src/domain.rs: domain names, candidates, and the hosts of URLs.
pub mod Names
pub mod Scope
use fqdn_forge.Base.{
  ℕ, ◌<◌, String, Bool, true, false, ◌&&◌, ◌||◌, not, Option, none, some, List, [], ◌∷◌, Result, ok,
  err, ◌==◌, leb, ltb, str_eq, if◌then◌else◌, all, keep, is_some_and, concat, is_empty_text,
  all_chars, any_char, contains_text, starts_with, ends_with, trim, trim_matches, trim_end_matches,
  split, to_ascii_lowercase, is_ascii_alphanumeric, first_is, last_is,
}
use Prim.Native.String.{len}
use fqdn_forge.Model.Collector.{FilterReason}
use fqdn_forge.Egress.{Urls}

-- `url::Host`.
pub data Host : Type 0 where
  domain : String → Host
  address : String → Host

-- `Host::parse` of the crate `url`.
abbrev pub HostParser : Type 0
HostParser = String → Option Host

abbrev pub is_hyphen : ℕ → Bool
is_hyphen c = c == 45

abbrev pub is_dot : ℕ → Bool
is_dot c = c == 46

-- The quotes, the comma and the semicolon that `normalize_domain` trims.
abbrev pub is_punctuation : ℕ → Bool
is_punctuation c = c == 96 || c == 34 || c == 39 || c == 44 || c == 59

unfoldable pub valid_label : String → Bool
valid_label label =
    not (is_empty_text label)
    && leb (len label) 63
    && not (first_is is_hyphen label)
    && not (last_is is_hyphen label)
    && all_chars (λ c. is_ascii_alphanumeric c || is_hyphen c) label

-- `normalize_domain` on what `Host::parse` gave.
unfoldable pub normalize_host : Option Host → Result FilterReason String
unfolding valid_label split to_ascii_lowercase
normalize_host none = err FilterReason.invalid_domain
normalize_host (some (address text)) = err FilterReason.invalid_domain
normalize_host (some (domain text)) =
    let lower = to_ascii_lowercase text in
    if any_char is_dot text
    then if all valid_label (split is_dot lower) then ok lower else err FilterReason.invalid_domain
    else err FilterReason.invalid_domain

unfoldable pub trimmed : String → String
unfolding trim trim_matches trim_end_matches
trimmed value = trim_end_matches is_dot (trim_matches is_punctuation (trim value))

unfoldable pub normalize_domain : HostParser → String → Result FilterReason String
unfolding trimmed normalize_host contains_text
normalize_domain parse value =
    let candidate = trimmed value in
    if is_empty_text candidate || ltb 253 (len candidate) || contains_text candidate ".."
    then err FilterReason.invalid_domain
    else normalize_host (parse candidate)

-- `accept_candidate` on the normalized candidate.
unfoldable pub in_scope : String → Bool → Result FilterReason String → Result FilterReason String
unfolding ends_with
in_scope root_domain include_root (err reason) = err reason
in_scope root_domain include_root (ok normalized) =
    if str_eq normalized root_domain
    then if include_root then ok normalized else err FilterReason.root_excluded
    else if ends_with normalized (concat ("." ∷ root_domain ∷ []))
    then ok normalized
    else err FilterReason.out_of_scope

unfoldable pub accept_candidate : HostParser → String → String → Bool → Result FilterReason String
unfolding in_scope normalize_domain trim
accept_candidate parse value root_domain include_root =
    let candidate = trim value in
    if starts_with candidate "*."
    then err FilterReason.wildcard
    else in_scope root_domain include_root (normalize_domain parse candidate)

abbrev is_address : Option Host → Bool
is_address (some (address text)) = true
is_address _ = false

module _ (x : Urls) (host : x.Url → Option Host) (parse : HostParser) where
  -- `host_from_url` on the parsed URL.
  unfoldable pub host_of : Option x.Url → Result FilterReason String
  unfolding normalize_domain
  host_of none = err FilterReason.invalid_url
  host_of (some url) =
      if not (str_eq (x.scheme url) "http" || str_eq (x.scheme url) "https")
        || is_address (host url)
      then err FilterReason.invalid_url
      else elim (x.host_str url) [
        | none ↦ err FilterReason.invalid_url
        | some text ↦ normalize_domain parse text
      ]

  unfoldable pub host_from_url : String → Result FilterReason String
  unfolding host_of
  host_from_url value = host_of (x.parse value)

-- `domainish_tokens`, over `char::is_alphanumeric` of the standard library's Unicode tables.
unfoldable pub domainish_tokens : (ℕ → Bool) → String → List String
unfolding split
domainish_tokens is_alphanumeric value =
    keep (any_char is_dot) (split (λ c. not (is_alphanumeric c || is_dot c || is_hyphen c)) value)
