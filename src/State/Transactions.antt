-- ===== src/State/Transactions.antt =====
-- syncpond-server/src/state.rs: `tx_begin`, `tx_end` and `tx_abort`.
pub mod Scripts
pub mod Commit
pub mod Serial
use data_sync.Base.{ℕ, Option, none, some, List, [], ◌∷◌, Result, ok, err}
use data_sync.Json.{Json}
use data_sync.State
use data_sync.State.{
  AppState, RoomState, RoomBody, RoomCommand, tx_not_open, tx_already_open, with_room, StateError,
}
use data_sync.State.Fragments.{write_fragment}

module _ {Value : Type 0} where
  -- The first argument is the room's `tx_buffer`.
  unfoldable pub begin_on : Option (List (RoomCommand Value)) → RoomBody Value (Unit {0})
  begin_on (some buffer) room = (err tx_already_open, room)
  begin_on none room = (ok tt, record room { tx_buffer = some [] })

  unfoldable pub begin_body : RoomBody Value (Unit {0})
  unfolding begin_on
  begin_body room = begin_on room.tx_buffer room

  unfoldable pub tx_begin : AppState Value → ℕ → Result StateError (Unit {0}) × AppState Value
  unfolding begin_body with_room
  tx_begin app room_id = with_room app room_id begin_body

  unfoldable pub abort_body : RoomBody Value (Unit {0})
  abort_body room = (ok tt, record room { tx_buffer = none })

  unfoldable pub tx_abort : AppState Value → ℕ → Result StateError (Unit {0}) × AppState Value
  unfolding abort_body with_room
  tx_abort app room_id = with_room app room_id abort_body

module _ {Value : Type 0} ⦃json : Json Value⦄ where
  -- One round of the loop of `tx_end`. A deletion makes its container if that is missing.
  unfoldable pub apply_command : RoomState Value → RoomCommand Value → RoomState Value
  unfolding write_fragment
  apply_command room (State.set container key value) = write_fragment room container key value
  apply_command room (State.del container key) = write_fragment room container key json.null

  unfoldable pub drain : RoomState Value → List (RoomCommand Value) → RoomState Value
  unfolding apply_command
  drain room [] = room
  drain room (op ∷ ops) = drain (apply_command room op) ops

  unfoldable pub end_on : Option (List (RoomCommand Value)) → RoomBody Value (Unit {0})
  unfolding drain
  end_on none room = (err tx_not_open, room)
  end_on (some buffer) room = (ok tt, drain (record room { tx_buffer = none }) buffer)

  unfoldable pub end_body : RoomBody Value (Unit {0})
  unfolding end_on
  end_body room = end_on room.tx_buffer room

  unfoldable pub tx_end : AppState Value → ℕ → Result StateError (Unit {0}) × AppState Value
  unfolding end_body with_room
  tx_end app room_id = with_room app room_id end_body
