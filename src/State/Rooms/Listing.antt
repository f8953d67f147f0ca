-- ===== src/State/Rooms/Listing.antt =====
-- `list_rooms` lists the rooms in ascending order, each of them as often as it is there.
use data_sync.Base.{
  ℕ, ◌+◌, ◌≤◌, ◌≡◌, refl, Bool, true, false, List, [], ◌∷◌, arith, nat_eq, if◌then◌else◌, leb,
  length, ◌==◌, All, Bool-cases, inl, inr, ◌∙◌,
}
use data_sync.Dict.{Dict, contains_key}
use data_sync.State.{AppState, RoomLock}
use data_sync.State.Rooms.{place, sort, keys, list_rooms}

abbrev pub IsSorted : List ℕ → Type 0
IsSorted [] = Unit
IsSorted (x ∷ xs) = All (λ y. x ≤ y) xs × IsSorted xs

unfoldable pub has : List ℕ → ℕ → Bool
has [] n = false
has (x ∷ xs) n = let rest = has xs n in if x == n then true else rest

has-place : (x : ℕ) (ys : List ℕ) (n : ℕ) → has (place x ys) n ≡ has (x ∷ ys) n
unfolding has place
has-place x [] n = refl
has-place x (y ∷ ys) n = ground (arith, has-place x ys n)

has-sort : (xs : List ℕ) (n : ℕ) → has (sort xs) n ≡ has xs n
unfolding sort has
has-sort [] n = refl
has-sort (x ∷ xs) n = has-place x (sort xs) n ∙ (ground (arith, has-sort xs n))

length-place : (x : ℕ) (ys : List ℕ) → length (place x ys) ≡ length ys + 1
unfolding place
length-place x [] = omega arith
length-place x (y ∷ ys) = ground (arith, length-place x ys)

length-sort : (xs : List ℕ) → length (sort xs) ≡ length xs
unfolding sort
length-sort [] = refl
length-sort (x ∷ xs) = omega (arith, length-place x (sort xs), length-sort xs)

All-weaken : (x y : ℕ) (zs : List ℕ) → x ≤ y → All (λ z. y ≤ z) zs → All (λ z. x ≤ z) zs
All-weaken x y [] h all = tt
All-weaken x y (z ∷ zs) h (le, all) = (omega arith, All-weaken x y zs h all)

All-place : (b x : ℕ) (ys : List ℕ) → b ≤ x → All (λ y. b ≤ y) ys → All (λ y. b ≤ y) (place x ys)
unfolding place
All-place b x [] h all = (h, tt)
All-place b x (y ∷ ys) h (le, all) = elim (Bool-cases (leb x y)) [
  | inl before ↦ rw before (h, (le, all))
  | inr behind ↦ rw behind (le, All-place b x ys h all)
]

place-IsSorted : (x : ℕ) (ys : List ℕ) → IsSorted ys → IsSorted (place x ys)
unfolding place
place-IsSorted x [] h = (tt, tt)
place-IsSorted x (y ∷ ys) (all, h) = elim (Bool-cases (leb x y)) [
  | inl before ↦
      let le : x ≤ y = ground arith in rw before ((le, All-weaken x y ys le all), (all, h))
  | inr behind ↦
      let le : y ≤ x = ground arith in rw behind (All-place y x ys le all, place-IsSorted x ys h)
]

sort-IsSorted : (xs : List ℕ) → IsSorted (sort xs)
unfolding sort
sort-IsSorted [] = tt
sort-IsSorted (x ∷ xs) = place-IsSorted x (sort xs) (sort-IsSorted xs)

module _ {Value : Type 0} where
  has-keys : (m : Dict ℕ (RoomLock Value)) (n : ℕ) → has (keys m) n ≡ contains_key m n
  unfolding has keys contains_key
  has-keys [] n = refl
  has-keys ((j, lock) ∷ m) n = ground (arith, has-keys m n)

  length-keys : (m : Dict ℕ (RoomLock Value)) → length (keys m) ≡ length m
  unfolding keys
  length-keys [] = refl
  length-keys ((j, lock) ∷ m) = omega (arith, length-keys m)

  -- ROOM.LIST gives the ids in ascending order, an id if and only if there is such a room, and as
  -- many ids as there are rooms.
  pub list_rooms-IsSorted :
      (app : AppState Value)
      → IsSorted (list_rooms app)
        × ((room_id : ℕ) → has (list_rooms app) room_id ≡ contains_key app.rooms room_id)
        × (length (list_rooms app) ≡ length app.rooms)
  unfolding list_rooms
  list_rooms-IsSorted app = (
    sort-IsSorted (keys app.rooms),
    (λ room_id. has-sort (keys app.rooms) room_id ∙ has-keys app.rooms room_id),
    length-sort (keys app.rooms) ∙ length-keys app.rooms,
  )
