-- ===== src/Domain/Names.antt =====
-- What `normalize_domain` returns is a domain name.
use Prim.Native.Char.{Char, code}
use Prim.Native.String.{len}
use fqdn_forge.Base.{
  ℕ, ◌≤◌, String, ◌≡◌, refl, subst, ◌∙◌, inl, inr, Bool, true, false, ◌||◌, not, Option, none, some,
  List, [], ◌∷◌, arith, ok, ltb, Bool-cases, &&_iff, false≢true, all, All, length, is_empty_text,
  all_chars, any_char, contains_text, split, onto_first, to_ascii_lowercase,
  to_ascii_lowercase_char, to_ascii_lowercase_char-cases, is_ascii_alphanumeric, is_ascii_lowercase,
  is_ascii_uppercase, is_ascii_digit, first_is, last_is, all_chars-to_ascii_lowercase,
}
use fqdn_forge.Domain.{
  Host, domain, address, HostParser, is_hyphen, is_dot, valid_label, trimmed, normalize_host,
  normalize_domain,
}

-- The lowercase letters, the digits and the hyphen.
abbrev pub is_label_char : ℕ → Bool
is_label_char c = is_ascii_lowercase c || is_ascii_digit c || is_hyphen c

pub record IsLabel (label : String) : Type 0 where
  pub nonempty : is_empty_text label ≡ false
  pub short : len label ≤ 63
  pub starts : first_is is_hyphen label ≡ false
  pub ends : last_is is_hyphen label ≡ false
  pub chars : all_chars is_label_char label ≡ true

-- Two labels at least, between dots.
pub record IsDomainName (name : String) : Type 0 where
  pub labels : All IsLabel (split is_dot name)
  pub several : 2 ≤ length (split is_dot name)

all_chars_both :
    (s : String)
    → all_chars (λ c. is_ascii_alphanumeric c || is_hyphen c) s ≡ true
    → all_chars (λ c. not (is_ascii_uppercase c)) s ≡ true
    → all_chars is_label_char s ≡ true
all_chars_both String.[] h k = refl
all_chars_both (String.◌∷◌ c s) h k = ground (arith, all_chars_both s)

split-AllChars :
    (p q : ℕ → Bool) (s : String)
    → all_chars p s ≡ true
    → All (λ piece. all_chars p piece ≡ true) (split q s)
unfolding split
split-AllChars p q String.[] h = (refl, tt)
split-AllChars p q (String.◌∷◌ c s) h =
    let (here, later) = (&&_iff (p (code c)) (all_chars p s)).0 h in
    let pieces = split-AllChars p q s later in
    elim (Bool-cases (q (code c))) [
      | inl e ↦ rw e (refl, pieces)
      | inr e ↦ rw e (onto (split q s) here pieces)
    ]
  where
    onto :
        (pieces : List String)
        → p (code c) ≡ true
        → All (λ piece. all_chars p piece ≡ true) pieces
        → All (λ piece. all_chars p piece ≡ true) (onto_first c pieces)
    onto [] here a = ((&&_iff (p (code c)) true).1 (here, refl), tt)
    onto (piece ∷ pieces) here a = ((&&_iff (p (code c)) (all_chars p piece)).1 (here, a.0), a.1)

length-onto_first : (c : Char) (pieces : List String) → length pieces ≤ length (onto_first c pieces)
length-onto_first c [] = omega arith
length-onto_first c (piece ∷ pieces) = omega arith

length-split-pos : (q : ℕ → Bool) (s : String) → 1 ≤ length (split q s)
unfolding split
length-split-pos q String.[] = omega arith
length-split-pos q (String.◌∷◌ c s) =
    ground (arith, length-split-pos q s, length-onto_first c (split q s))

length-split : (q : ℕ → Bool) (s : String) → any_char q s ≡ true → 2 ≤ length (split q s)
unfolding split
length-split q String.[] h = absurd (false≢true h)
length-split q (String.◌∷◌ c s) h =
    ground (arith, length-split-pos q s, length-split q s, length-onto_first c (split q s))

lower-is_dot : (c : Char) → is_dot (code (to_ascii_lowercase_char c)) ≡ is_dot (code c)
lower-is_dot c = elim (to_ascii_lowercase_char-cases c) [
  | inl (e, f) ↦ ground (arith, e, f)
  | inr (e, f) ↦ rw f refl
]

any_dot-to_ascii_lowercase :
    (s : String) → any_char is_dot (to_ascii_lowercase s) ≡ any_char is_dot s
unfolding to_ascii_lowercase
any_dot-to_ascii_lowercase String.[] = refl
any_dot-to_ascii_lowercase (String.◌∷◌ c s) =
    ground (arith, lower-is_dot c, any_dot-to_ascii_lowercase s)

valid_label-IsLabel :
    (l : String)
    → valid_label l ≡ true
    → all_chars (λ c. not (is_ascii_uppercase c)) l ≡ true
    → IsLabel l
unfolding valid_label
valid_label-IsLabel l h k = record {
  nonempty = ground (arith, h);
  short = ground (arith, h);
  starts = ground (arith, h);
  ends = ground (arith, h);
  chars = all_chars_both l (ground (arith, h)) k;
}

All-IsLabel :
    (ls : List String)
    → all valid_label ls ≡ true
    → All (λ l. all_chars (λ c. not (is_ascii_uppercase c)) l ≡ true) ls
    → All IsLabel ls
All-IsLabel [] h k = tt
All-IsLabel (l ∷ ls) h k =
    let (here, later) = (&&_iff (valid_label l) (all valid_label ls)).0 h in
    (valid_label-IsLabel l here k.0, All-IsLabel ls later k.1)

normalize_host-IsDomainName :
    (host : Option Host) (d : String) → normalize_host host ≡ ok d → IsDomainName d
unfolding normalize_host
normalize_host-IsDomainName none d h = absurd (cc h)
normalize_host-IsDomainName (some (address text)) d h = absurd (cc h)
normalize_host-IsDomainName (some (domain text)) d h =
    let lower = to_ascii_lowercase text in
    elim (Bool-cases (any_char is_dot text)) [
      | inr e ↦ absurd (ground (arith, h, e))
      | inl e ↦ elim (Bool-cases (all valid_label (split is_dot lower))) [
        | inr f ↦ absurd (ground (arith, h, e, f))
        | inl f ↦
            let same : lower ≡ d = ground (arith, h, e, f) in
            subst IsDomainName same (record {
              labels = All-IsLabel (split is_dot lower) f (
                  split-AllChars (λ c. not (is_ascii_uppercase c)) is_dot lower
                    (all_chars-to_ascii_lowercase text));
              several = length-split is_dot lower (any_dot-to_ascii_lowercase text ∙ e);
            })
      ]
    ]

-- What `normalize_domain` returns, whatever `Host::parse` does, has two labels at least, each of 1 to
-- 63 lowercase letters, digits and hyphens, without a hyphen at either end.
pub normalize_domain-IsDomainName :
    (parse : HostParser) (value d : String) → normalize_domain parse value ≡ ok d → IsDomainName d
unfolding normalize_domain
normalize_domain-IsDomainName parse value d h =
    let refused =
      is_empty_text (trimmed value)
      || ltb 253 (len (trimmed value))
      || contains_text (trimmed value) ".." in
    elim (Bool-cases refused) [
      | inl e ↦ absurd (ground (arith, h, e))
      | inr e ↦ normalize_host-IsDomainName (parse (trimmed value)) d (ground (arith, h, e))
    ]
