-- ===== src/BTreeSet.antt =====
-- The standard library's `BTreeSet<String>`, as the judge uses it: the rising list of its elements.
use fqdn_forge.Base.{
  String, ◌≡◌, ◌↔◌, refl, sym, ap, ◌∙◌, subst, inl, inr, Bool, true, false, ◌&&◌, ◌||◌, List, [],
  ◌∷◌, arith, str_eq, eq_iff, eq_refl, if◌then◌else◌, before, before_antisym, In, any, all, all_iff,
  In-of_any, any_of_In, Bool-cases, &&_iff, false≢true,
}
use fqdn_forge.BTreeMap.Order.{Above, Above-trans, IsRising, eq_of_same}

unfoldable pub insert : String → List String → List String
unfolding before
insert k [] = k ∷ []
insert k (j ∷ js) =
    if str_eq j k then j ∷ js else if before k j then k ∷ j ∷ js else j ∷ insert k js

-- `collect::<BTreeSet<_>>()`.
unfoldable pub collect : List String → List String
unfolding insert
collect [] = []
collect (x ∷ xs) = insert x (collect xs)

unfoldable pub contains : List String → String → Bool
contains xs a = any (λ x. str_eq x a) xs

unfoldable pub is_subset : List String → List String → Bool
unfolding contains
is_subset xs ys = all (contains ys) xs

-- `==` of two sets goes through both in order.
unfoldable pub same_elements : List String → List String → Bool
same_elements [] [] = true
same_elements [] (y ∷ ys) = false
same_elements (x ∷ xs) [] = false
same_elements (x ∷ xs) (y ∷ ys) = str_eq x y && same_elements xs ys

pub contains_iff : (xs : List String) (a : String) → (contains xs a ≡ true) ↔ In a xs
unfolding contains
contains_iff xs a = (
  λ h.
      let (x, m, e) = In-of_any (λ x. str_eq x a) xs h in subst (λ y. In y xs) ((eq_iff x a).0 e) m,
  λ m. any_of_In (λ x. str_eq x a) xs a m (eq_refl a),
)

pub same_elements_iff : (xs ys : List String) → (same_elements xs ys ≡ true) ↔ (xs ≡ ys)
unfolding same_elements
same_elements_iff xs ys = (to xs ys, λ e. subst (λ l. same_elements xs l ≡ true) e (self xs))
  where
    self : (l : List String) → same_elements l l ≡ true
    self [] = refl
    self (x ∷ l) = (&&_iff (str_eq x x) (same_elements l l)).1 (eq_refl x, self l)

    to : (l r : List String) → same_elements l r ≡ true → l ≡ r
    to [] [] h = refl
    to [] (y ∷ r) h = absurd (false≢true h)
    to (x ∷ l) [] h = absurd (false≢true h)
    to (x ∷ l) (y ∷ r) h =
        let parts = (&&_iff (str_eq x y) (same_elements l r)).0 h in
        ap (λ z. z ∷ l) ((eq_iff x y).0 parts.0) ∙ ap (λ z. y ∷ z) (to l r parts.1)

insert-Above :
    (k j : String) (xs : List String) → before j k ≡ true → Above j xs → Above j (insert k xs)
unfolding insert
insert-Above k j [] h a = (h, tt)
insert-Above k j (x ∷ xs) h a = ground (arith, insert-Above k j xs h a.1)

insert-IsRising : (k : String) (xs : List String) → IsRising xs → IsRising (insert k xs)
unfolding insert
insert-IsRising k [] r = (tt, tt)
insert-IsRising k (x ∷ xs) r = elim (Bool-cases (str_eq x k)) [
  | inl e ↦ rw (e, insert) r
  | inr e ↦ elim (Bool-cases (before k x)) [
    | inl b ↦ rw (e, b, insert) ((b, Above-trans k x xs b r.0), r)
    | inr b ↦ rw (e, b, insert) (insert-Above k x xs (after k x e b) r.0, insert-IsRising k xs r.1)
  ]
]
  where
    after : (j y : String) → str_eq y j ≡ false → before j y ≡ false → before y j ≡ true
    after j y e b = elim (Bool-cases (before y j)) [
      | inl h ↦ h
      | inr h ↦ absurd (false≢true (sym e ∙ (eq_iff y j).1 (before_antisym y j h b)))
    ]

pub collect-IsRising : (xs : List String) → IsRising (collect xs)
unfolding collect
collect-IsRising [] = tt
collect-IsRising (x ∷ xs) = insert-IsRising x (collect xs) (collect-IsRising xs)

contains-insert :
    (k a : String) (xs : List String) → contains (insert k xs) a ≡ (str_eq k a || contains xs a)
unfolding insert contains
contains-insert k a [] = refl
contains-insert k a (x ∷ xs) =
    ground (arith, eq_iff x k, eq_iff k a, eq_iff x a, contains-insert k a xs)

pub contains-collect : (xs : List String) (a : String) → contains (collect xs) a ≡ contains xs a
unfolding collect contains
contains-collect [] a = refl
contains-collect (x ∷ xs) a =
    contains-insert x a (collect xs) ∙ ap (λ b. str_eq x a || b) (contains-collect xs a)

pub collect-In : (xs : List String) (a : String) → In a (collect xs) ↔ In a xs
collect-In xs a = (
  λ m. (contains_iff xs a).0 (sym (contains-collect xs a) ∙ (contains_iff (collect xs) a).1 m),
  λ m. (contains_iff (collect xs) a).0 (contains-collect xs a ∙ (contains_iff xs a).1 m),
)

-- Two collected sets compare equal exactly when the same texts went in, whatever the order and the
-- repetitions.
pub same_elements-collect :
    (xs ys : List String)
    → (same_elements (collect xs) (collect ys) ≡ true) ↔ ((a : String) → In a xs ↔ In a ys)
same_elements-collect xs ys = (
  λ h a.
      let e = (same_elements_iff (collect xs) (collect ys)).0 h in
      (
        λ m. (collect-In ys a).0 (subst (λ l. In a l) e ((collect-In xs a).1 m)),
        λ m. (collect-In xs a).0 (subst (λ l. In a l) (sym e) ((collect-In ys a).1 m)),
      ),
  λ h. (same_elements_iff (collect xs) (collect ys)).1 (
      eq_of_same (collect xs) (collect ys) (collect-IsRising xs) (collect-IsRising ys) (λ a. (
        λ m. (collect-In ys a).1 ((h a).0 ((collect-In xs a).0 m)),
        λ m. (collect-In xs a).1 ((h a).1 ((collect-In ys a).0 m)),
      ))),
)

-- The subset test on collected sets.
pub is_subset-collect :
    (xs ys : List String)
    → (is_subset (collect xs) (collect ys) ≡ true) ↔ ((a : String) → In a xs → In a ys)
unfolding is_subset
is_subset-collect xs ys = (
  λ h a m. (collect-In ys a).0 (
      (contains_iff (collect ys) a).0
        ((all_iff (contains (collect ys)) (collect xs)).0 h a ((collect-In xs a).1 m))),
  λ h.
      (all_iff (contains (collect ys)) (collect xs)).1 (λ a m.
        (contains_iff (collect ys) a).1 ((collect-In ys a).1 (h a ((collect-In xs a).0 m)))),
)
