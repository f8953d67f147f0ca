-- ===== src/State/Transactions/Commit.antt =====
-- What a transaction shows while it is open, and what its end and its abort leave.
use data_sync.Base.{
  ℕ, ◌+◌, ◌<◌, ◌≡◌, refl, false, Option, none, some, List, ◌∷◌, ◌++◌, Result, ok, err, ap, nat_eq,
  ◌∙◌, sym, if◌then◌else◌, length, u64_mod, All,
}
use data_sync.Text.{Text, text_eq}
use data_sync.Json.{Json}
use data_sync.State.{
  AppState, RoomState, RoomCommand, StateError, find_room, store_room, with_room-found,
  tx_already_open, fragment_tombstone,
}
use data_sync.State.Rooms.{room_version}
use data_sync.State.Fragments.{get_fragment, get_body, live}
use data_sync.State.Fragments.Effects.{get_fragment-found, get_body-some}
use data_sync.State.Transactions.{
  begin_body, end_body, abort_body, end_on, tx_begin, tx_end, tx_abort, drain,
}
use data_sync.State.Transactions.Scripts.{opened, find_room-opened, find_room-stored}
use data_sync.State.Views.{snapshot, room_snapshot}
use data_sync.State.Room.Draining.{
  container, key, payload, touches, room_counter-drain, fragment-drain_last,
}

module _ {Value : Type 0} ⦃json : Json Value⦄ (app : AppState Value) (room_id : ℕ)
    (ops : List (RoomCommand Value)) {room : RoomState Value}
    (found : find_room app room_id ≡ ok room) (closed : room.tx_buffer ≡ none) where
  -- In a room that can be taken and has no transaction open: one that is begun shows nothing of its
  -- SET and DEL commands until it ends, however many they are:
  -- every key reads as before, the version stays, and a second `tx_begin` is refused.
  pub opened_is_isolated :
      ((c k : Text)
        → get_fragment (opened app room_id ops) room_id c k ≡ get_fragment app room_id c k)
      × ((allowed : List Text)
          → room_snapshot (opened app room_id ops) room_id allowed
            ≡ room_snapshot app room_id allowed)
      × (room_version (opened app room_id ops) room_id ≡ room_version app room_id)
      × ((tx_begin (opened app room_id ops) room_id).0 ≡ err tx_already_open)
  opened_is_isolated = (
    (λ c k.
        get_fragment-found (opened app room_id ops) room_id c k
          (find_room-opened app room_id ops found closed)
        ∙ (unfold get_body in sym (get_fragment-found app room_id c k found))),
    (λ allowed.
        unfold room_snapshot in
        rw (find_room-opened app room_id ops found closed, found) (unfold snapshot in refl)),
    (unfold room_version in rw (find_room-opened app room_id ops found closed, found)),
    (unfold tx_begin in
        ap (λ (r : Result StateError (Unit {0}) × AppState Value). r.0)
          (with_room-found (opened app room_id ops) room_id begin_body
            (find_room-opened app room_id ops found closed))),
  )

  end_on-some :
      (b : Option (List (RoomCommand Value))) (now : RoomState Value)
      → b ≡ some ops
      → end_on b now ≡ (ok tt, drain (record now { tx_buffer = none }) ops)
  unfolding end_on
  end_on-some b now p = rw p

  without_buffer : record room { tx_buffer = none } ≡ room
  without_buffer = λ i. record room { tx_buffer = sym closed i }

  committed :
      tx_end (opened app room_id ops) room_id
      ≡ (ok tt, store_room (opened app room_id ops) room_id (drain room ops))
  unfolding tx_end end_body
  committed =
      let now : RoomState Value = record room { tx_buffer = some ops } in
      with_room-found (opened app room_id ops) room_id end_body
        (find_room-opened app room_id ops found closed)
      ∙ ap (λ r. (ok tt, store_room (opened app room_id ops) room_id r))
          (ap (λ (r : Result StateError (Unit {0}) × RoomState Value). r.1)
              (end_on-some now.tx_buffer now refl)
            ∙ ap (λ r. drain r ops) without_buffer)

  -- A transaction begun in a room that can be taken and has none open ends with success, and the
  -- room is then what its commands make of the room as it was at the beginning, one after the
  -- other.
  pub tx_end-opened :
      ((tx_end (opened app room_id ops) room_id).0 ≡ ok tt)
      × (find_room (tx_end (opened app room_id ops) room_id).1 room_id ≡ ok (drain room ops))
  tx_end-opened =
      rw committed (refl, find_room-stored (opened app room_id ops) room_id (drain room ops))

  -- A transaction begun in a room that can be taken and has none open takes one version at its end
  -- for each of its commands, where the counter stays below 2^64.
  pub room_version-tx_end :
      room.room_counter + length ops < u64_mod
      → room_version (tx_end (opened app room_id ops) room_id).1 room_id
        ≡ ok (room.room_counter + length ops)
  unfolding room_version
  room_version-tx_end fits = rw tx_end-opened.1 (ap ok (room_counter-drain room ops fits))

  aborted :
      tx_abort (opened app room_id ops) room_id
      ≡ (ok tt, store_room (opened app room_id ops) room_id room)
  unfolding tx_abort abort_body
  aborted =
      with_room-found (opened app room_id ops) room_id abort_body
        (find_room-opened app room_id ops found closed)
      ∙ ap (λ r. (ok tt, store_room (opened app room_id ops) room_id r)) without_buffer

  -- An aborted transaction, begun in a room that can be taken and has none open, leaves the room
  -- exactly as it was at the beginning.
  pub tx_abort-opened :
      ((tx_abort (opened app room_id ops) room_id).0 ≡ ok tt)
      × (find_room (tx_abort (opened app room_id ops) room_id).1 room_id ≡ ok room)
  tx_abort-opened = rw aborted (refl, find_room-stored (opened app room_id ops) room_id room)

module _ {Value : Type 0} ⦃json : Json Value⦄ (app : AppState Value) (room_id : ℕ)
    (before : List (RoomCommand Value)) (op : RoomCommand Value) (after : List (RoomCommand Value))
    {room : RoomState Value} (found : find_room app room_id ≡ ok room)
    (closed : room.tx_buffer ≡ none) where
  -- After the end of a transaction that was begun in a room that can be taken and has none open,
  -- and whose versions stay below 2^64, a key reads as its last command in the transaction left it,
  -- with the version that the command's place gives; after a deletion, and after SET of `null`, it
  -- reads as a tombstone.
  pub get_fragment-tx_end :
      room.room_counter + length before + 1 < u64_mod
      → All (λ later. touches (container op) (key op) later ≡ false) after
      → get_fragment
          (tx_end (opened app room_id (before ++ op ∷ after)) room_id).1
          room_id
          (container op)
          (key op)
        ≡ (if json.is_null (payload op)
            then err fragment_tombstone
            else ok (payload op, room.room_counter + length before + 1))
  get_fragment-tx_end fits last =
      let ops = before ++ op ∷ after in
      let done = tx_end-opened app room_id ops found closed in
      get_fragment-found (tx_end (opened app room_id ops) room_id).1 room_id (container op) (key op)
        done.1
      ∙ get_body-some (drain room ops) (container op) (key op) _
          (fragment-drain_last room before op after fits last)
      ∙ (unfold live in refl)
