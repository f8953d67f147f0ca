-- ===== src/Dict/Distinct.antt =====
-- The keys of a `HashMap` are distinct, and what a loop over its entries leaves behind.
use mathlib.Core.Option
use data_sync.Base.{
  ◌≡◌, refl, false, Option, none, some, [], ◌∷◌, arith, PartialEq, ◌==◌, ==_iff, ==_refl,
  Bool-cases, inl, inr, ap, subst,
}
use data_sync.Dict.{
  Dict, get, contains_key, insert, remove, get-insert, contains_key-insert, contains_key-remove,
  get-not-contains_key,
}

module _ {ℓ κ} {K : Type ℓ} {V : Type κ} ⦃e : PartialEq K⦄ where
  abbrev pub Distinct : Dict K V → Type 0
  Distinct [] = Unit
  Distinct ((k, v) ∷ m) = (contains_key m k ≡ false) × Distinct m

  pub insert-Distinct : (m : Dict K V) (k : K) (v : V) → Distinct m → Distinct (insert m k v)
  unfolding insert contains_key
  insert-Distinct [] k v h = (refl, tt)
  insert-Distinct ((i, w) ∷ m) k v h =
      ground (arith, ==_iff i k, ==_iff k i, contains_key-insert m k i v, insert-Distinct m k v h.1)

  pub remove-Distinct : (m : Dict K V) (k : K) → Distinct m → Distinct (remove m k)
  unfolding remove
  remove-Distinct [] k h = tt
  remove-Distinct ((i, w) ∷ m) k h =
      ground (arith, contains_key-remove m k i, remove-Distinct m k h.1)

module _ {ℓ κ} {K : Type ℓ} {W : Type κ} ⦃e : PartialEq K⦄ where
  pub insert_some : Dict K W → K → Option W → Dict K W
  insert_some out k none = out
  insert_some out k (some w) = insert out k w

  insert_some-Distinct :
      (out : Dict K W) (k : K) (o : Option W) → Distinct out → Distinct (insert_some out k o)
  unfolding insert_some
  insert_some-Distinct out k none h = h
  insert_some-Distinct out k (some w) h = insert-Distinct out k w h

-- What stands at a key that the loop meets, or does not meet.
abbrev pub collected {μ} : {W : Type μ} → Option W → Option (Option W) → Option W
collected old none = old
collected old (some none) = old
collected old (some (some w)) = some w

module _ {ℓ κ μ} {K : Type ℓ} {V : Type κ} {W : Type μ} ⦃e : PartialEq K⦄ where
  -- `for (k, v) in m { ... out.insert(k.clone(), w) ... }`, where `f k v` is `some w` on the
  -- entries for which the body gets to the `insert`.
  unfoldable pub collect : (K → V → Option W) → Dict K V → Dict K W → Dict K W
  unfolding insert_some
  collect f [] out = out
  collect f ((k, v) ∷ m) out = collect f m (insert_some out k (f k v))

  pub get-collect :
      (f : K → V → Option W) (m : Dict K V) (out : Dict K W) (j : K)
      → Distinct m
      → get (collect f m out) j ≡ collected (get out j) (Option.map (f j) (get m j))
  unfolding collect get
  get-collect f [] out j h = refl
  get-collect f ((i, v) ∷ m) out j (new, h) = elim (Bool-cases (i == j)) [
    | inl same ↦
        let at : i ≡ j = (e.eq_test_iff i j).0 same in
        let gone : get m j ≡ none =
          get-not-contains_key m j (subst (λ x. contains_key m x ≡ false) at new) in
        rw (same, get-collect f m (insert_some out i (f i v)) j h, gone, at) (last_insert (f j v))
    | inr other ↦
        rw (other, get-collect f m (insert_some out i (f i v)) j h)
          (ap (λ o. collected o (Option.map (f j) (get m j))) (other_insert (f i v) other))
  ]
    where
      last_insert : (o : Option W) → get (insert_some out j o) j ≡ collected (get out j) (some o)
      last_insert none = refl
      last_insert (some w) = rw (get-insert out j j w, ==_refl j)

      other_insert : (o : Option W) → (i == j) ≡ false → get (insert_some out i o) j ≡ get out j
      other_insert none h = refl
      other_insert (some w) h = rw (get-insert out i j w, h)

  pub collect-Distinct :
      (f : K → V → Option W) (m : Dict K V) (out : Dict K W)
      → Distinct out
      → Distinct (collect f m out)
  unfolding collect
  collect-Distinct f [] out h = h
  collect-Distinct f ((k, v) ∷ m) out h =
      collect-Distinct f m (insert_some out k (f k v)) (insert_some-Distinct out k (f k v) h)
