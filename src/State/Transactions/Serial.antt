-- ===== src/State/Transactions/Serial.antt =====
-- A transaction of SET commands against the same commands without a transaction.
use data_sync.Base.{ℕ, ◌≡◌, none, List, [], ◌∷◌, Result, ok, ap, nat_eq, ◌∙◌, sym, All}
use data_sync.Text.{Text}
use data_sync.Json.{Json}
use data_sync.State
use data_sync.State.{AppState, RoomState, RoomCommand, StateError, find_room, with_room-found}
use data_sync.State.Fragments.{set_body, set_fragment, write_fragment}
use data_sync.State.Fragments.Effects.{set_on-none}
use data_sync.State.Transactions.{tx_end, drain}
use data_sync.State.Transactions.Scripts.{submit, submit_all, opened, find_room-stored}
use data_sync.State.Transactions.Commit.{tx_end-opened}

module _ {Value : Type 0} ⦃json : Json Value⦄ where
  abbrev pub IsSetCommand : RoomCommand Value → Type 0
  IsSetCommand (State.set c k v) = Unit
  IsSetCommand (State.del c k) = ⊥

  find_room-set :
      (app : AppState Value) (room_id : ℕ) (c k : Text) (v : Value) (room : RoomState Value)
      → find_room app room_id ≡ ok room
      → room.tx_buffer ≡ none
      → find_room (submit app room_id (State.set c k v)) room_id ≡ ok (write_fragment room c k v)
  unfolding submit set_fragment set_body
  find_room-set app room_id c k v room h closed =
      ap (λ (r : Result StateError (Unit {0}) × AppState Value). find_room r.1 room_id)
        (with_room-found app room_id (set_body c k v) h)
      ∙ find_room-stored app room_id _
      ∙ ap (λ (r : Result StateError (Unit {0}) × RoomState Value). ok r.1)
          (set_on-none app room_id c k v h room.tx_buffer closed)

  find_room-sets :
      (app : AppState Value) (room_id : ℕ) (ops : List (RoomCommand Value)) (room : RoomState Value)
      → All IsSetCommand ops
      → find_room app room_id ≡ ok room
      → room.tx_buffer ≡ none
      → find_room (submit_all app room_id ops) room_id ≡ ok (drain room ops)
  unfolding submit_all drain
  find_room-sets app room_id [] room sets h closed = h
  find_room-sets app room_id (State.set c k v ∷ ops) room (_, sets) h closed =
      find_room-sets (submit app room_id (State.set c k v)) room_id ops (write_fragment room c k v)
        sets (find_room-set app room_id c k v room h closed) (unfold write_fragment in closed)
  find_room-sets app room_id (State.del c k ∷ ops) room (no', _) h closed = absurd no'

  -- In a room that can be taken and has no transaction open, SET commands in a transaction leave
  -- the room exactly as the same commands do without one: the same values, the same versions and
  -- the same counter.
  pub tx_end-submit_all :
      (app : AppState Value) (room_id : ℕ) (ops : List (RoomCommand Value)) {room : RoomState Value}
      → All IsSetCommand ops
      → find_room app room_id ≡ ok room
      → room.tx_buffer ≡ none
      → find_room (tx_end (opened app room_id ops) room_id).1 room_id
        ≡ find_room (submit_all app room_id ops) room_id
  tx_end-submit_all app room_id ops {room} sets h closed =
      (tx_end-opened app room_id ops h closed).1
      ∙ sym (find_room-sets app room_id ops room sets h closed)
