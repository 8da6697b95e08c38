-- ===== src/Base/Chars.antt =====
-- The operations of `str` that go through the characters, here by their code points.
use Prim.Native.Nat.{ℕ, zero, suc, ◌-◌}
use Prim.Native.Char.{Char, code, nul}
use Prim.Native.String.{String}
use mathlib.Core.Path.{◌≡◌, refl}
use mathlib.Core.Bool.{Bool, true, false, ◌&&◌, ◌||◌, not}
use mathlib.Core.List.{List, [], ◌∷◌}
use text.Mathlib.Text.{◌==◌ as str_eq, starts_with}
use native.Mathlib.Omega.{arith}
use mathlib.Core.Logic.{◌⊎◌, inl, inr}
use fqdn_forge.Base.Tests.{leb, ◌==◌, if◌then◌else◌, Bool-cases, &&_iff}

abbrev pub is_empty_text : String → Bool
is_empty_text String.[] = true
is_empty_text (String.◌∷◌ c s) = false

-- `chars().all(..)`.
abbrev pub all_chars : (ℕ → Bool) → String → Bool
all_chars p String.[] = true
all_chars p (String.◌∷◌ c s) = p (code c) && all_chars p s

-- `chars().any(..)`, and `contains` of a character.
abbrev pub any_char : (ℕ → Bool) → String → Bool
any_char p String.[] = false
any_char p (String.◌∷◌ c s) = p (code c) || any_char p s

-- `contains` of a text.
unfoldable pub contains_text : String → String → Bool
contains_text String.[] t = starts_with String.[] t
contains_text (String.◌∷◌ c s) t = starts_with (String.◌∷◌ c s) t || contains_text s t

unfoldable pub ends_with : String → String → Bool
ends_with String.[] t = str_eq String.[] t
ends_with (String.◌∷◌ c s) t = str_eq (String.◌∷◌ c s) t || ends_with s t

-- `trim_start_matches` and `trim_end_matches` of a test.
unfoldable pub trim_start_matches : (ℕ → Bool) → String → String
trim_start_matches p String.[] = String.[]
trim_start_matches p (String.◌∷◌ c s) =
    if p (code c) then trim_start_matches p s else String.◌∷◌ c s

unfoldable pub trim_end_matches : (ℕ → Bool) → String → String
trim_end_matches p String.[] = String.[]
trim_end_matches p (String.◌∷◌ c s) =
    let rest = trim_end_matches p s in
    if is_empty_text rest && p (code c) then String.[] else String.◌∷◌ c rest

unfoldable pub trim_matches : (ℕ → Bool) → String → String
unfolding trim_start_matches trim_end_matches
trim_matches p s = trim_end_matches p (trim_start_matches p s)

abbrev pub between : ℕ → ℕ → ℕ → Bool
between low high c = leb low c && leb c high

-- `char::is_whitespace`, the Unicode property White_Space.
unfoldable pub is_whitespace : ℕ → Bool
is_whitespace c =
    between 9 13 c
    || c == 32
    || c == 133
    || c == 160
    || c == 5760
    || between 8192 8202 c
    || c == 8232
    || c == 8233
    || c == 8239
    || c == 8287
    || c == 12288

unfoldable pub trim : String → String
unfolding is_whitespace trim_matches
trim = trim_matches is_whitespace

-- `split` at the characters that pass the test.

abbrev pub onto_first : Char → List String → List String
onto_first c [] = String.◌∷◌ c String.[] ∷ []
onto_first c (piece ∷ pieces) = String.◌∷◌ c piece ∷ pieces

unfoldable pub split : (ℕ → Bool) → String → List String
split p String.[] = String.[] ∷ []
split p (String.◌∷◌ c s) =
    let pieces = split p s in if p (code c) then String.[] ∷ pieces else onto_first c pieces

abbrev pub is_ascii_lowercase : ℕ → Bool
is_ascii_lowercase = between 97 122

abbrev pub is_ascii_uppercase : ℕ → Bool
is_ascii_uppercase = between 65 90

abbrev pub is_ascii_digit : ℕ → Bool
is_ascii_digit = between 48 57

abbrev pub is_ascii_alphanumeric : ℕ → Bool
is_ascii_alphanumeric c = is_ascii_lowercase c || is_ascii_uppercase c || is_ascii_digit c

nth_char : String → ℕ → Char
nth_char String.[] i = nul
nth_char (String.◌∷◌ c s) zero = c
nth_char (String.◌∷◌ c s) (suc i) = nth_char s i

unfoldable pub to_ascii_lowercase_char : Char → Char
unfolding nth_char
to_ascii_lowercase_char c =
    if is_ascii_uppercase (code c) then nth_char "abcdefghijklmnopqrstuvwxyz" (code c - 65) else c

unfoldable pub to_ascii_lowercase : String → String
unfolding to_ascii_lowercase_char
to_ascii_lowercase String.[] = String.[]
to_ascii_lowercase (String.◌∷◌ c s) = String.◌∷◌ (to_ascii_lowercase_char c) (to_ascii_lowercase s)

-- The last character, if the text has one.
abbrev pub last_is : (ℕ → Bool) → String → Bool
last_is p String.[] = false
last_is p (String.◌∷◌ c String.[]) = p (code c)
last_is p (String.◌∷◌ c (String.◌∷◌ d s)) = last_is p (String.◌∷◌ d s)

abbrev pub first_is : (ℕ → Bool) → String → Bool
first_is p String.[] = false
first_is p (String.◌∷◌ c s) = p (code c)

nth_char-AllChars :
    (p : ℕ → Bool) (s : String) (i : ℕ)
    → p 0 ≡ true
    → all_chars p s ≡ true
    → p (code (nth_char s i)) ≡ true
unfolding nth_char
nth_char-AllChars p String.[] i z h = z
nth_char-AllChars p (String.◌∷◌ c s) zero z h = ((&&_iff (p (code c)) (all_chars p s)).0 h).0
nth_char-AllChars p (String.◌∷◌ c s) (suc i) z h =
    nth_char-AllChars p s i z ((&&_iff (p (code c)) (all_chars p s)).0 h).1

-- A capital becomes a small letter, and nothing else changes.
pub to_ascii_lowercase_char-cases :
    (c : Char)
    → ((is_ascii_uppercase (code c) ≡ true)
        × ((is_ascii_lowercase (code (to_ascii_lowercase_char c))
              || code (to_ascii_lowercase_char c) == 0)
            ≡ true))
      ⊎ ((is_ascii_uppercase (code c) ≡ false) × (to_ascii_lowercase_char c ≡ c))
unfolding to_ascii_lowercase_char
to_ascii_lowercase_char-cases c = elim (Bool-cases (is_ascii_uppercase (code c))) [
  | inl e ↦ inl (
    e,
    rw e (
        nth_char-AllChars (λ d. is_ascii_lowercase d || d == 0) "abcdefghijklmnopqrstuvwxyz"
          (code c - 65) refl refl),
  )
  | inr e ↦ inr (e, rw e refl)
]

not_upper_char : (c : Char) → not (is_ascii_uppercase (code (to_ascii_lowercase_char c))) ≡ true
not_upper_char c = elim (to_ascii_lowercase_char-cases c) [
  | inl (e, f) ↦ ground (arith, f)
  | inr (e, f) ↦ rw f (rw e refl)
]

-- Nothing in a lowercased text is an ASCII capital.
pub all_chars-to_ascii_lowercase :
    (s : String) → all_chars (λ c. not (is_ascii_uppercase c)) (to_ascii_lowercase s) ≡ true
unfolding to_ascii_lowercase
all_chars-to_ascii_lowercase String.[] = refl
all_chars-to_ascii_lowercase (String.◌∷◌ c s) =
    (&&_iff (not (is_ascii_uppercase (code (to_ascii_lowercase_char c))))
        (all_chars (λ d. not (is_ascii_uppercase d)) (to_ascii_lowercase s))).1
      (not_upper_char c, all_chars-to_ascii_lowercase s)
