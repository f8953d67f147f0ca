-- ===== src/State/Run/Sync.antt =====
-- What holds after every sequence of calls from the server's start.
use data_sync.Base.{
  ℕ, ◌+◌, ◌<◌, ◌≡◌, refl, none, some, List, arith, Result, ok, err, inl, inr, length, subst,
  u64_mod, nat_eq, ==_refl,
}
use data_sync.Dict.{get, get-insert}
use data_sync.Text.{Text}
use data_sync.Json.{Json}
use data_sync.State.{AppState, RoomState, StateError, room_not_found, empty_room, find_room, new}
use data_sync.State.Rooms.{create_room}
use data_sync.State.Views.{RoomView, room_snapshot, room_delta, snapshot, delta}
use data_sync.State.Views.Lookup.{view_value}
use data_sync.State.Room.Consistent.{IsConsistent}
use data_sync.State.Room.CatchUp.{Extends, overlay, overlay-delta}
use data_sync.State.Run.{Call, run}
use data_sync.State.Run.Valid.{IsValid, find_room-none}
use data_sync.State.Run.Steps.{run-IsValid, run-Grows, new-IsValid}

module _ {Value : Type 0} (app : AppState Value) (room_id : ℕ) (allowed : List Text) where
  room_snapshot-found :
      {room : RoomState Value}
      → find_room app room_id ≡ ok room
      → room_snapshot app room_id allowed ≡ some (snapshot room allowed)
  unfolding room_snapshot
  room_snapshot-found p = rw p

  room_delta-found :
      {room : RoomState Value} (since : ℕ)
      → find_room app room_id ≡ ok room
      → room_delta app room_id since allowed ≡ some (delta room since allowed)
  unfolding room_delta
  room_delta-found since p = rw p

  snapshot_source :
      {view : RoomView Value}
      → room_snapshot app room_id allowed ≡ some view
      → (room : RoomState Value) × (find_room app room_id ≡ ok room)
        × (snapshot room allowed ≡ view)
  snapshot_source {view} h = go (find_room app room_id) refl
    where
      go :
          (r : Result StateError (RoomState Value))
          → find_room app room_id ≡ r
          → (room : RoomState Value) × (find_room app room_id ≡ ok room)
            × (snapshot room allowed ≡ view)
      go (err e) p = absurd (unfold room_snapshot in ground arith)
      go (ok room) p = (room, p, cc (room_snapshot-found p, h))

find_room-missing :
    {Value : Type 0} (app : AppState Value) (room_id : ℕ)
    → get app.rooms room_id ≡ none
    → find_room app room_id ≡ err room_not_found
unfolding find_room
find_room-missing app room_id h = rw h

find_room-created :
    {Value : Type 0} (app : AppState Value)
    → find_room (create_room app).1 (create_room app).0 ≡ ok empty_room
unfolding find_room create_room
find_room-created app =
    rw (get-insert app.rooms app.next_room_id app.next_room_id _, ==_refl app.next_room_id)

overlay-delta_of :
    {Value : Type 0} {old new : RoomState Value} {base update current : RoomView Value}
    (allowed : List Text) (c k : Text)
    → IsConsistent old
    → IsConsistent new
    → Extends old new
    → snapshot old allowed ≡ base
    → delta new base.room_counter allowed ≡ update
    → snapshot new allowed ≡ current
    → overlay base update c k ≡ view_value current c k
unfolding snapshot
overlay-delta_of {old} {new} allowed c k h h' x eb eu ec =
    rw (← eu, ← ec, ← eb) (overlay-delta old new allowed c k h h' x)

module _ {Value : Type 0} ⦃json : Json Value⦄ where
  -- Whatever calls have been made since the start, fewer than 2^64 - 1 of them: the ids of rooms
  -- are distinct and below the next id, no lock is poisoned, and in every room the keys are
  -- distinct, no container is empty, every entry has a version between 1 and the room's counter,
  -- no two entries have one version, and the counter and the buffered commands together do not
  -- exceed the number of calls.
  pub run-new-IsValid :
      (calls : List (Call Value))
      → length calls + 1 < u64_mod
      → IsValid (length calls) (run new calls)
  run-new-IsValid calls fits =
      subst (λ n. IsValid n (run new calls)) (omega arith)
        (run-IsValid 0 new calls new-IsValid (omega arith))

  -- A client that took a snapshot of a room at some moment of a run from the server's start, and
  -- at a later moment applies the delta since the counter in that snapshot, has at every key what
  -- a snapshot of that later moment holds there; fewer than 2^64 - 1 calls are made in all.
  pub run_catch_up :
      (before after : List (Call Value)) (room_id : ℕ) (allowed : List Text) (c k : Text)
      (base update current : RoomView Value)
      → length before + length after + 1 < u64_mod
      → room_snapshot (run new before) room_id allowed ≡ some base
      → room_delta (run (run new before) after) room_id base.room_counter allowed ≡ some update
      → room_snapshot (run (run new before) after) room_id allowed ≡ some current
      → overlay base update c k ≡ view_value current c k
  run_catch_up before after room_id allowed c k base update current fits hb hu hc =
      let app1 = run new before in
      let app2 = run app1 after in
      let v1 = run-new-IsValid before (omega arith) in
      let v2 = run-IsValid (length before) app1 after v1 (omega arith) in
      let (old, found1, eb) = snapshot_source app1 room_id allowed hb in
      let (room, found2, ec) = snapshot_source app2 room_id allowed hc in
      let eu : delta room base.room_counter allowed ≡ update =
        cc (room_delta-found app2 room_id allowed base.room_counter found2, hu) in
      elim ((run-Grows (length before) app1 after v1 (omega arith)).rooms room_id room found2) [
        | inl young ↦ absurd (find_room-none app1 room_id old (v1.fresh room_id young) found1)
        | inr (old', found', extends) ↦
            let same : old' ≡ old = cc (found', found1) in
            overlay-delta_of allowed c k (v1.sound room_id old found1).consistent
              (v2.sound room_id room found2).consistent (subst (λ r. Extends r room) same extends)
              eb eu ec
      ]

  -- At any moment of a run from the server's start, ROOM.CREATE gives an id that no room has or
  -- had at an earlier moment, and there an empty room at version 0; fewer than 2^64 - 1 calls are
  -- made in all.
  pub create_room_is_new :
      (before after : List (Call Value))
      → length before + length after + 1 < u64_mod
      → let app = run (run new before) after in
        (find_room (run new before) (create_room app).0 ≡ err room_not_found)
        × (find_room app (create_room app).0 ≡ err room_not_found)
        × (find_room (create_room app).1 (create_room app).0 ≡ ok empty_room)
  unfolding create_room
  create_room_is_new before after fits =
      let app1 = run new before in
      let app2 = run app1 after in
      let v1 = run-new-IsValid before (omega arith) in
      let v2 = run-IsValid (length before) app1 after v1 (omega arith) in
      let grows = run-Grows (length before) app1 after v1 (omega arith) in
      (
        find_room-missing app1 app2.next_room_id (v1.fresh app2.next_room_id grows.next),
        find_room-missing app2 app2.next_room_id (v2.fresh app2.next_room_id (omega arith)),
        find_room-created app2,
      )
