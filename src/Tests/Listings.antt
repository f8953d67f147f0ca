-- ===== src/Tests/Listings.antt =====
-- Three rooms that stand out of order.
use data_sync.Base.{ℕ, ◌≡◌, refl, [], ◌∷◌, length, false, nat_eq}
use data_sync.Dict.{contains_key}
use data_sync.Text.{Text}
use data_sync.State.{AppState, new, empty_room}
use data_sync.State.Rooms.{list_rooms}
use data_sync.State.Rooms.Listing.{IsSorted, has, list_rooms-IsSorted}

abbrev app : AppState Text
app = record new {
  rooms =
      (5, record { poisoned = false; room = empty_room })
      ∷ (2, record { poisoned = false; room = empty_room })
      ∷ (9, record { poisoned = false; room = empty_room })
      ∷ [];
}

list_rooms-IsSorted_example :
    IsSorted (list_rooms app)
    × ((room_id : ℕ) → has (list_rooms app) room_id ≡ contains_key app.rooms room_id)
    × (length (list_rooms app) ≡ 3)
list_rooms-IsSorted_example = list_rooms-IsSorted app

listed : list_rooms app ≡ 2 ∷ 5 ∷ 9 ∷ []
unfolding list_rooms
listed = refl
