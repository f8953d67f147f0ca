-- ===== src/State/Rooms.antt =====
-- syncpond-server/src/state.rs: `create_room`, `delete_room`, `room_version` and `list_rooms`.
pub mod Listing
use data_sync.Base.{ℕ, false, List, [], ◌∷◌, Result, ok, err, nat_eq, ◌>>=◌, if◌then◌else◌, leb}
use data_sync.Dict.{Dict, insert, remove, contains_key}
use data_sync.State.{AppState, RoomLock, StateError, room_not_found, bump, empty_room, find_room}

-- `sort_unstable` on numbers: of equal numbers the order is not seen, so that any sort returns the
-- same list.
place : ℕ → List ℕ → List ℕ
place x [] = x ∷ []
place x (y ∷ ys) = if leb x y then x ∷ y ∷ ys else y ∷ place x ys

unfoldable pub sort : List ℕ → List ℕ
unfolding place
sort [] = []
sort (x ∷ xs) = place x (sort xs)

module _ {Value : Type 0} where
  unfoldable pub create_room : AppState Value → ℕ × AppState Value
  unfolding bump
  create_room app =
      let room_id = app.next_room_id in
      (
        room_id,
        record app {
          next_room_id = bump app.next_room_id;
          rooms = insert app.rooms room_id (record { poisoned = false; room = empty_room });
        },
      )

  unfoldable pub delete_room : AppState Value → ℕ → Result StateError (Unit {0}) × AppState Value
  delete_room app room_id =
      if contains_key app.rooms room_id
      then (ok tt, record app { rooms = remove app.rooms room_id })
      else (err room_not_found, app)

  unfoldable pub room_version : AppState Value → ℕ → Result StateError ℕ
  room_version app room_id = do room ← find_room app room_id; ok room.room_counter

  -- `rooms.keys().copied().collect()`.
  unfoldable pub keys : Dict ℕ (RoomLock Value) → List ℕ
  keys [] = []
  keys ((room_id, lock) ∷ m) = room_id ∷ keys m

  unfoldable pub list_rooms : AppState Value → List ℕ
  unfolding keys sort
  list_rooms app = sort (keys app.rooms)
