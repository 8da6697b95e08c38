-- ===== src/Base/Text.antt =====
-- Texts: equality, the order of `str`, code points.
use Prim.Native.Nat.{ℕ, zero, suc, ◌+◌, ◌/◌, ◌%◌}
use Prim.Native.Char.{code}
use Prim.Native.String.{String, ◌++◌ as append}
use mathlib.Core.Path.{◌≡◌, refl, sym, ap, ap₂}
use mathlib.Core.Logic.{◌↔◌}
use mathlib.Core.Option.{Option, none, some}
use text.Mathlib.Text.{◌==◌ as str_eq}
use text.Mathlib.TextEquality.{eq_iff}
use mathlib.Core.Bool.{Bool, true, false, false≢true}
use mathlib.Core.List.{List, [], ◌∷◌}
use native.Mathlib.Omega.{arith}
use text.Mathlib.TextEquality.{Char-path}
use fqdn_forge.Base.Tests.{is_some_and, of_some, ltb, ◌==◌, if◌then◌else◌}

-- The code points of a text: its bytes, if it is ASCII.
abbrev pub codes : String → List ℕ
codes String.[] = []
codes (String.◌∷◌ c s) = code c ∷ codes s

-- `<` on `str`. The order of the UTF-8 bytes is that of the code points.
unfoldable pub before : String → String → Bool
before s String.[] = false
before String.[] (String.◌∷◌ d t) = true
before (String.◌∷◌ c s) (String.◌∷◌ d t) =
    if ltb (code c) (code d) then true else if ltb (code d) (code c) then false else before s t

pub before_irrefl : (s : String) → before s s ≡ false
unfolding before
before_irrefl String.[] = refl
before_irrefl (String.◌∷◌ c s) = ground (arith, before_irrefl s)

pub before_trans : (s t u : String) → before s t ≡ true → before t u ≡ true → before s u ≡ true
unfolding before
before_trans s t String.[] h k = cc
before_trans s String.[] (String.◌∷◌ e u) h k = cc
before_trans String.[] (String.◌∷◌ d t) (String.◌∷◌ e u) h k = refl
before_trans (String.◌∷◌ c s) (String.◌∷◌ d t) (String.◌∷◌ e u) h k =
    ground (arith, before_trans s t u)

-- Texts that do not come before each other are the same.
pub before_antisym : (s t : String) → before s t ≡ false → before t s ≡ false → s ≡ t
unfolding before
before_antisym String.[] String.[] h k = refl
before_antisym String.[] (String.◌∷◌ d t) h k = absurd (false≢true (sym h))
before_antisym (String.◌∷◌ c s) String.[] h k = absurd (false≢true (sym k))
before_antisym (String.◌∷◌ c s) (String.◌∷◌ d t) h k =
    ap₂ (λ x y. String.◌∷◌ x y) (Char-path c d (ground arith))
      (before_antisym s t (ground arith) (ground arith))

-- `format!` with the pieces in order.
abbrev pub concat : List String → String
concat [] = ""
concat (s ∷ rest) = append s (concat rest)

digit : ℕ → String
digit n =
    if n == 0
    then "0"
    else if n == 1
    then "1"
    else if n == 2
    then "2"
    else if n == 3
    then "3"
    else if n == 4
    then "4"
    else if n == 5
    then "5"
    else if n == 6
    then "6"
    else if n == 7
    then "7"
    else if n == 8
    then "8"
    else "9"

-- The digits of a number in front of a text; `fuel` bounds their count.
decimal_digits : ℕ → ℕ → String → String
decimal_digits zero n rest = rest
decimal_digits (suc fuel) n rest =
    let text = append (digit (n % 10)) rest in
    let more = decimal_digits fuel (n / 10) text in if ltb n 10 then text else more

-- `{}` of an unsigned integer.
unfoldable pub decimal : ℕ → String
unfolding decimal_digits digit
decimal n = decimal_digits (suc n) n ""

decimal_twelve : decimal 1250 ≡ "1250"
unfolding decimal
decimal_twelve = refl

abbrev lower : ℕ → ℕ
lower c = if ltb 64 c then if ltb c 91 then c + 32 else c else c

same_lower : List ℕ → List ℕ → Bool
same_lower [] [] = true
same_lower [] (d ∷ t) = false
same_lower (c ∷ s) [] = false
same_lower (c ∷ s) (d ∷ t) = let rest = same_lower s t in if lower c == lower d then rest else false

-- `eq_ignore_ascii_case`.
unfoldable pub eq_ignore_ascii_case : String → String → Bool
unfolding same_lower
eq_ignore_ascii_case s t = same_lower (codes s) (codes t)

-- `as_deref() == Some(text)`.
pub is_some_and-str_eq :
    (o : Option String) (t : String) → (is_some_and o (λ c. str_eq c t) ≡ true) ↔ (o ≡ some t)
is_some_and-str_eq none t = ((λ h. absurd (false≢true h)), λ h. cc)
is_some_and-str_eq (some c) t = (λ h. ap some ((eq_iff c t).0 h), λ h. (eq_iff c t).1 (of_some h))
