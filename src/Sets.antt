-- ===== src/Sets.antt =====
-- `HashSet<String>`: the list of its members, each once. The order in which a set is walked is not
-- specified, and no statement depends on it.
use data_sync.Base.{
  ◌≡◌, Bool, true, false, ◌||◌, List, [], ◌∷◌, ◌++◌, arith, ◌==◌, ==_iff, ◌⊎◌, inl, inr, refl,
  Bool-cases, if◌then◌else◌,
}
use data_sync.Text.{Text, text_eq}

unfoldable pub contains : List Text → Text → Bool
contains [] name = false
contains (x ∷ xs) name = if x == name then true else contains xs name

unfoldable pub set_insert : List Text → Text → List Text
unfolding contains
set_insert names name = if contains names name then names else names ++ name ∷ []

-- `iter().cloned().collect()` into a set.
unfoldable pub collect_set : List Text → List Text → List Text
unfolding set_insert
collect_set [] out = out
collect_set (name ∷ names) out = collect_set names (set_insert out name)

contains-append :
    (xs : List Text) (y name : Text)
    → contains (xs ++ y ∷ []) name ≡ (contains xs name || y == name)
unfolding contains
contains-append [] y name = ground arith
contains-append (x ∷ xs) y name = ground (arith, contains-append xs y name)

pub contains-set_insert :
    (xs : List Text) (y name : Text)
    → contains (set_insert xs y) name ≡ (contains xs name || y == name)
unfolding set_insert
contains-set_insert xs y name = ground (arith, contains-append xs y name, ==_iff y name)

pub contains-collect_set :
    (xs out : List Text) (name : Text)
    → contains (collect_set xs out) name ≡ (contains out name || contains xs name)
unfolding collect_set contains
contains-collect_set [] out name = ground arith
contains-collect_set (x ∷ xs) out name =
    ground (arith, contains-collect_set xs (set_insert out x) name, contains-set_insert out x name)

-- A name is one of some names.
abbrev pub IsMember : List Text → Text → Type 0
IsMember [] name = ⊥
IsMember (x ∷ xs) name = (x ≡ name) ⊎ IsMember xs name

pub IsMember-contains : (xs : List Text) (name : Text) → IsMember xs name → contains xs name ≡ true
unfolding contains
IsMember-contains [] name h = absurd h
IsMember-contains (x ∷ xs) name (inl e) = rw ((==_iff x name).1 e) refl
IsMember-contains (x ∷ xs) name (inr h) = elim (Bool-cases (x == name)) [
  | inl same ↦ rw same refl
  | inr other ↦ rw other (IsMember-contains xs name h)
]

pub contains-IsMember : (xs : List Text) (name : Text) → contains xs name ≡ true → IsMember xs name
unfolding contains
contains-IsMember [] name h = cc
contains-IsMember (x ∷ xs) name h = elim (Bool-cases (x == name)) [
  | inl same ↦ inl ((==_iff x name).0 same)
  | inr other ↦ inr (contains-IsMember xs name (rw other at h))
]
