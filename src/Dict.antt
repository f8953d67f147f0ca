-- ===== src/Dict.antt =====
-- `HashMap` of the Rust standard library: an association list whose keys are distinct.
pub mod Distinct
use data_sync.Base.{
  ℕ, ◌+◌, ◌≤◌, ◌≡◌, refl, Bool, true, false, not, Option, none, some, List, [], ◌∷◌, arith,
  PartialEq, ◌==◌, ==_iff, if◌then◌else◌, length, Bool-cases, inl, inr,
}

abbrev pub Dict {ℓ κ} : Type ℓ → Type κ → Type (ℓ ⊔ κ)
Dict K V = List (K × V)

module _ {ℓ κ} {K : Type ℓ} {V : Type κ} ⦃e : PartialEq K⦄ where
  -- `get`.
  unfoldable pub get : Dict K V → K → Option V
  get [] k = none
  get ((j, v) ∷ m) k = if j == k then some v else get m k

  -- `contains_key`.
  unfoldable pub contains_key : Dict K V → K → Bool
  contains_key [] k = false
  contains_key ((j, v) ∷ m) k = if j == k then true else contains_key m k

  -- `insert`: a present key keeps its place, a new key goes to the end.
  unfoldable pub insert : Dict K V → K → V → Dict K V
  insert [] k v = (k, v) ∷ []
  insert ((j, w) ∷ m) k v = if j == k then (j, v) ∷ m else (j, w) ∷ insert m k v

  -- `remove`.
  unfoldable pub remove : Dict K V → K → Dict K V
  remove [] k = []
  remove ((j, w) ∷ m) k = let rest = remove m k in if j == k then rest else (j, w) ∷ rest

  pub get-insert :
      (m : Dict K V) (k j : K) (v : V) → get (insert m k v) j ≡ (if k == j then some v else get m j)
  unfolding get insert
  get-insert [] k j v = refl
  get-insert ((i, w) ∷ m) k j v =
      ground (arith, ==_iff i k, ==_iff i j, ==_iff k j, get-insert m k j v)

  pub get-remove :
      (m : Dict K V) (k j : K) → get (remove m k) j ≡ (if k == j then none else get m j)
  unfolding get remove
  get-remove [] k j = ground arith
  get-remove ((i, w) ∷ m) k j = ground (arith, ==_iff i k, ==_iff i j, ==_iff k j, get-remove m k j)

  pub contains_key-insert :
      (m : Dict K V) (k j : K) (v : V)
      → contains_key (insert m k v) j ≡ (if k == j then true else contains_key m j)
  unfolding contains_key insert
  contains_key-insert [] k j v = refl
  contains_key-insert ((i, w) ∷ m) k j v =
      ground (arith, ==_iff i k, ==_iff i j, ==_iff k j, contains_key-insert m k j v)

  pub contains_key-remove :
      (m : Dict K V) (k j : K)
      → contains_key (remove m k) j ≡ (if k == j then false else contains_key m j)
  unfolding contains_key remove
  contains_key-remove [] k j = ground arith
  contains_key-remove ((i, w) ∷ m) k j =
      ground (arith, ==_iff i k, ==_iff i j, ==_iff k j, contains_key-remove m k j)

  -- `contains_key` is `get` with the value forgotten.
  pub get-not-contains_key : (m : Dict K V) (k : K) → contains_key m k ≡ false → get m k ≡ none
  unfolding get contains_key
  get-not-contains_key [] k h = refl
  get-not-contains_key ((i, w) ∷ m) k h = ground (arith, get-not-contains_key m k)

  pub get-contains_key :
      (m : Dict K V) (k : K) → contains_key m k ≡ true → (v : V) × (get m k ≡ some v)
  unfolding get contains_key
  get-contains_key [] k h = cc
  get-contains_key ((i, w) ∷ m) k h = elim (Bool-cases (i == k)) [
    | inl p ↦ (w, ground arith)
    | inr p ↦ let (v, q) = get-contains_key m k (ground arith) in (v, ground arith)
  ]

  pub contains_key-get : (m : Dict K V) (k : K) (v : V) → get m k ≡ some v → contains_key m k ≡ true
  unfolding get contains_key
  contains_key-get [] k v h = cc
  contains_key-get ((i, w) ∷ m) k v h = ground (arith, contains_key-get m k v)

  pub length-insert :
      (m : Dict K V) (k : K) (v : V)
      → length (insert m k v) ≡ (if contains_key m k then length m else length m + 1)
  unfolding insert contains_key
  length-insert [] k v = omega arith
  length-insert ((i, w) ∷ m) k v = ground (arith, length-insert m k v)

module _ {ℓ κ} {K : Type ℓ} {V : Type κ} ⦃e : PartialEq K⦄ where
  -- To write back what stands there changes nothing.
  pub insert-get_self : (m : Dict K V) (k : K) (v : V) → get m k ≡ some v → insert m k v ≡ m
  unfolding get insert
  insert-get_self [] k v h = cc
  insert-get_self ((j, w) ∷ m) k v h = ground (arith, insert-get_self m k v)

pub ruleset dict_laws = (get-insert, get-remove, contains_key-insert, contains_key-remove)
