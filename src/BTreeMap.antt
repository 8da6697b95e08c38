-- ===== src/BTreeMap.antt =====
-- The standard library's `BTreeMap<String, V>`, as the program uses it: an association list that
-- `insert` keeps in the order of the keys, so that iteration visits the keys in that order.
-- `set` is what a write through `get_mut` does.
pub mod Order
use fqdn_forge.Base.{
  ℕ, String, ◌≡◌, refl, ◌⊎◌, inl, inr, Bool, true, false, Option, none, some, List, [], ◌∷◌, map,
  arith, str_eq, eq_iff, if◌then◌else◌, before, is_some, length, Option-cases, sym, ap,
}

abbrev pub BTreeMap {ℓ} : Type ℓ → Type ℓ
BTreeMap V = List (String × V)

module _ {ℓ} {V : Type ℓ} where
  abbrev pub empty : BTreeMap V
  empty = []

  unfoldable pub get : String → BTreeMap V → Option V
  get k [] = none
  get k ((j, v) ∷ m) = if str_eq j k then some v else get k m

  unfoldable pub insert : String → V → BTreeMap V → BTreeMap V
  unfolding before
  insert k v [] = (k, v) ∷ []
  insert k v ((j, w) ∷ m) =
      if str_eq j k
      then (k, v) ∷ m
      else if before k j
      then (k, v) ∷ (j, w) ∷ m
      else (j, w) ∷ insert k v m

  unfoldable pub set : String → V → BTreeMap V → BTreeMap V
  set k v [] = []
  set k v ((j, w) ∷ m) = if str_eq j k then (j, v) ∷ m else (j, w) ∷ set k v m

  unfoldable pub remove : String → BTreeMap V → BTreeMap V
  remove k [] = []
  remove k ((j, v) ∷ m) = let rest = remove k m in if str_eq j k then rest else (j, v) ∷ rest

  abbrev pub contains_key : String → BTreeMap V → Bool
  contains_key k m = is_some (get k m)

  abbrev pub keys : BTreeMap V → List String
  keys = map λ e. e.0

  abbrev pub values : BTreeMap V → List V
  values = map λ e. e.1

  pub get-insert :
      (k j : String) (v : V) (m : BTreeMap V)
      → get j (insert k v m) ≡ (if str_eq k j then some v else get j m)
  unfolding get insert
  get-insert k j v [] = refl
  get-insert k j v ((i, w) ∷ m) =
      ground (arith, eq_iff k j, eq_iff i k, eq_iff i j, get-insert k j v m)

  pub get-remove :
      (k j : String) (m : BTreeMap V) → get j (remove k m) ≡ (if str_eq k j then none else get j m)
  unfolding get remove
  get-remove k j [] = ground arith
  get-remove k j ((i, w) ∷ m) = ground (arith, eq_iff k j, eq_iff i k, eq_iff i j, get-remove k j m)

  -- A write through `get_mut` changes the entry of a key that is there, and nothing else.
  pub get-set :
      (k j : String) (v w : V) (m : BTreeMap V)
      → get k m ≡ some w
      → get j (set k v m) ≡ (if str_eq k j then some v else get j m)
  unfolding get set
  get-set k j v w [] h = cc
  get-set k j v w ((i, u) ∷ m) h =
      ground (arith, eq_iff k j, eq_iff i k, eq_iff i j, get-set k j v w m)

  pub set_same : (k : String) (v : V) (m : BTreeMap V) → get k m ≡ some v → set k v m ≡ m
  unfolding get set
  set_same k v [] h = refl
  set_same k v ((i, u) ∷ m) h = ground (arith, set_same k v m)

  pub keys-set : (k : String) (v : V) (m : BTreeMap V) → keys (set k v m) ≡ keys m
  unfolding set
  keys-set k v [] = refl
  keys-set k v ((i, u) ∷ m) = ground (arith, keys-set k v m)
