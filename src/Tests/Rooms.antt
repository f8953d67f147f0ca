-- ===== src/Tests/Rooms.antt =====
-- Rooms, transactions, snapshots and deltas.
use data_sync.Base.{◌≡◌, refl, arith, List, [], ◌∷◌, ok, err, some}
use data_sync.Dict.{insert, get}
use data_sync.Text.{Text, lit, text_eq}
use data_sync.State.{new, find_room, store_room, room_not_found, empty_room}
use data_sync.State.Rooms.{create_room}
use data_sync.State.Views.{RoomView, room_snapshot, room_delta}
use data_sync.State.Views.Lookup.{view_value}
use data_sync.State.Room.CatchUp.{overlay}
use data_sync.State.Run.{Call, run, create, set, del, begin, end}
use data_sync.State.Run.Valid.{IsValid}
use data_sync.State.Run.Sync.{run-new-IsValid, run_catch_up, create_room_is_new}
use data_sync.Tests.Sample.{sample_json}

abbrev public : Text
public = lit "public"

abbrev first_calls : List (Call Text)
first_calls = create ∷ set 1 public (lit "a") (lit "1") ∷ set 1 public (lit "b") (lit "2") ∷ []

abbrev later_calls : List (Call Text)
later_calls =
    begin 1 ∷ set 1 public (lit "a") (lit "3") ∷ del 1 (lit "private") (lit "c") ∷ end 1 ∷ []

run-new-IsValid_example : IsValid 3 (run {Value = Text} new first_calls)
run-new-IsValid_example = run-new-IsValid first_calls (omega arith)

abbrev base_view : RoomView Text
base_view = record {
  room_counter = 2;
  containers = (public, (lit "a", lit "1") ∷ (lit "b", lit "2") ∷ []) ∷ [];
}

abbrev update_view : RoomView Text
update_view = record { room_counter = 4; containers = (public, (lit "a", lit "3") ∷ []) ∷ [] }

abbrev current_view : RoomView Text
current_view = record {
  room_counter = 4;
  containers = (public, (lit "a", lit "3") ∷ (lit "b", lit "2") ∷ []) ∷ [];
}

base_snapshot : room_snapshot (run {Value = Text} new first_calls) 1 [] ≡ some base_view
unfolding room_snapshot run new find_room text_eq get insert store_room
base_snapshot = refl

update_delta :
    room_delta (run {Value = Text} (run new first_calls) later_calls) 1 2 [] ≡ some update_view
unfolding room_delta run new find_room text_eq get insert store_room
update_delta = refl

current_snapshot :
    room_snapshot (run {Value = Text} (run new first_calls) later_calls) 1 [] ≡ some current_view
unfolding room_snapshot run new find_room text_eq get insert store_room
current_snapshot = refl

run_catch_up_example :
    overlay base_view update_view public (lit "a") ≡ view_value current_view public (lit "a")
run_catch_up_example =
    run_catch_up first_calls later_calls 1 [] public (lit "a") base_view update_view current_view
      (omega arith) base_snapshot update_delta current_snapshot

create_room_is_new_example :
    let app = run {Value = Text} (run new first_calls) later_calls in
    (find_room (run {Value = Text} new first_calls) (create_room app).0 ≡ err room_not_found)
    × (find_room app (create_room app).0 ≡ err room_not_found)
    × (find_room (create_room app).1 (create_room app).0 ≡ ok empty_room)
create_room_is_new_example = create_room_is_new first_calls later_calls (omega arith)
