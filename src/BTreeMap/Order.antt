-- ===== src/BTreeMap/Order.antt =====
-- Strictly rising lists of texts: the keys of a `BTreeMap`, and the elements of a `BTreeSet`.
use fqdn_forge.Base.{
  ◌≤◌, String, ◌≡◌, ◌↔◌, refl, sym, ap, ◌∙◌, subst, inl, inr, true, List, [], ◌∷◌, arith, before,
  before_irrefl, before_trans, length, In, false≢true,
}

-- The text comes before every element.
abbrev pub Above : String → List String → Type 0
Above k [] = Unit
Above k (j ∷ js) = (before k j ≡ true) × Above k js

abbrev pub IsRising : List String → Type 0
IsRising [] = Unit
IsRising (k ∷ ks) = Above k ks × IsRising ks

pub Above-In : (k a : String) (xs : List String) → Above k xs → In a xs → before k a ≡ true
Above-In k a [] h m = absurd m
Above-In k a (x ∷ xs) h (inl e) = subst (λ y. before k y ≡ true) e h.0
Above-In k a (x ∷ xs) h (inr m) = Above-In k a xs h.1 m

pub Above-trans : (j k : String) (xs : List String) → before j k ≡ true → Above k xs → Above j xs
Above-trans j k [] h a = tt
Above-trans j k (x ∷ xs) h a = (before_trans j k x h a.0, Above-trans j k xs h a.1)

-- Nothing comes before itself.
pub not_self : (a b : String) → before a b ≡ true → b ≡ a → ⊥
not_self a b h e = false≢true (sym (before_irrefl a) ∙ subst (λ c. before a c ≡ true) e h)

-- The elements of a rising list whose head is shared lie in the tail of the other.
tail_subset :
    (x y : String) (xs ys : List String)
    → Above x xs
    → y ≡ x
    → ((a : String) → In a (x ∷ xs) → In a (y ∷ ys))
    → (a : String) → In a xs
    → In a ys
tail_subset x y xs ys above e sub a m = elim (sub a (inr m)) [
  | inl f ↦ absurd (not_self x a (Above-In x a xs above m) (sym f ∙ e))
  | inr n ↦ n
]

-- Where the head of the other comes first, all lie in its tail.
whole_subset :
    (x y : String) (xs ys : List String)
    → Above x xs
    → Above y ys
    → In x ys
    → ((a : String) → In a (x ∷ xs) → In a (y ∷ ys))
    → (a : String) → In a (x ∷ xs)
    → In a ys
whole_subset x y xs ys ax ay mx sub a (inl e) = subst (λ b. In b ys) e mx
whole_subset x y xs ys ax ay mx sub a (inr m) = elim (sub a (inr m)) [
  | inl f ↦
      absurd
        (not_self y a (before_trans y x a (Above-In y x ys ay mx) (Above-In x a xs ax m)) (sym f))
  | inr n ↦ n
]

-- A rising list is no longer than one that has all its elements.
pub length-subset-le :
    (xs ys : List String)
    → IsRising xs
    → IsRising ys
    → ((a : String) → In a xs → In a ys)
    → length xs ≤ length ys
length-subset-le [] ys rx ry sub = omega arith
length-subset-le (x ∷ xs) [] rx ry sub = absurd (sub x (inl refl))
length-subset-le (x ∷ xs) (y ∷ ys) rx ry sub = elim (sub x (inl refl)) [
  | inl e ↦ omega (arith, length-subset-le xs ys rx.1 ry.1 (tail_subset x y xs ys rx.0 e sub))
  | inr m ↦
      omega (arith, length-subset-le (x ∷ xs) ys rx ry.1 (whole_subset x y xs ys rx.0 ry.0 m sub))
]

-- If it is as long, it is the same list.
pub eq_of_subset :
    (xs ys : List String)
    → IsRising xs
    → IsRising ys
    → ((a : String) → In a xs → In a ys)
    → length ys ≤ length xs
    → xs ≡ ys
eq_of_subset [] [] rx ry sub h = refl
eq_of_subset [] (y ∷ ys) rx ry sub h = absurd (omega arith)
eq_of_subset (x ∷ xs) [] rx ry sub h = absurd (sub x (inl refl))
eq_of_subset (x ∷ xs) (y ∷ ys) rx ry sub h = elim (sub x (inl refl)) [
  | inl e ↦
      ap (λ z. z ∷ xs) (sym e)
      ∙ ap (λ l. y ∷ l)
          (eq_of_subset xs ys rx.1 ry.1 (tail_subset x y xs ys rx.0 e sub) (omega arith))
  | inr m ↦
      absurd (
        omega
          (arith, length-subset-le (x ∷ xs) ys rx ry.1 (whole_subset x y xs ys rx.0 ry.0 m sub)))
]

-- Rising lists with the same elements are the same.
pub eq_of_same :
    (xs ys : List String) → IsRising xs → IsRising ys → ((a : String) → In a xs ↔ In a ys) → xs ≡ ys
eq_of_same xs ys rx ry h =
    eq_of_subset xs ys rx ry (λ a. (h a).0) (length-subset-le ys xs ry rx (λ a. (h a).1))
