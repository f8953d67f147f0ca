-- ===== src/State/Transactions/Scripts.antt =====
-- A transaction as a client runs it: `tx_begin`, any number of SET and DEL calls on the room, and
-- then `tx_end` or `tx_abort`.
use data_sync.Base.{
  ℕ, ◌≡◌, refl, Option, none, some, List, [], ◌∷◌, ◌++◌, append_assoc, append-nil, Result, ok, ap,
  nat_eq, ==_refl, ◌∙◌,
}
use data_sync.Text.{Text, text_eq}
use data_sync.Json.{Json}
use data_sync.State
use data_sync.State.{
  AppState, RoomState, RoomBody, RoomCommand, StateError, FragmentEntry, find_room, store_room,
  with_room, with_room-found, find_room-store_room, tx_already_open,
}
use data_sync.State.Fragments.{set_body, del_body, set_on, del_on, set_fragment, del_fragment}
use data_sync.State.Transactions.{begin_body, begin_on, tx_begin}

module _ {Value : Type 0} ⦃json : Json Value⦄ where
  -- The call that stands for a command.
  unfoldable pub submit : AppState Value → ℕ → RoomCommand Value → AppState Value
  submit app room_id (State.set c k v) = (set_fragment app room_id c k v).1
  submit app room_id (State.del c k) = (del_fragment app room_id c k).1

  unfoldable pub submit_all : AppState Value → ℕ → List (RoomCommand Value) → AppState Value
  unfolding submit
  submit_all app room_id [] = app
  submit_all app room_id (op ∷ ops) = submit_all (submit app room_id op) room_id ops

  -- The application between `tx_begin` and the end of the transaction.
  unfoldable pub opened : AppState Value → ℕ → List (RoomCommand Value) → AppState Value
  unfolding submit_all
  opened app room_id ops = submit_all (tx_begin app room_id).1 room_id ops

  pub find_room-stored :
      (app : AppState Value) (room_id : ℕ) (room : RoomState Value)
      → find_room (store_room app room_id room) room_id ≡ ok room
  find_room-stored app room_id room =
      rw (find_room-store_room app room_id room_id room, ==_refl room_id)

  set_on-some :
      (b : Option (List (RoomCommand Value))) (ops : List (RoomCommand Value)) (c k : Text)
      (v : Value) (room : RoomState Value)
      → b ≡ some ops
      → (set_on b c k v room).1 ≡ record room { tx_buffer = some (ops ++ State.set c k v ∷ []) }
  unfolding set_on
  set_on-some b ops c k v room p = rw p

  del_on-some :
      (b : Option (List (RoomCommand Value))) (ops : List (RoomCommand Value)) (c k : Text)
      (room : RoomState Value)
      → b ≡ some ops
      → (del_on b c k room).1 ≡ record room { tx_buffer = some (ops ++ State.del c k ∷ []) }
  unfolding del_on
  del_on-some b ops c k room p = rw p

  -- While a transaction is open a command only joins the buffer.
  find_room-submit :
      (app : AppState Value) (room_id : ℕ) (op : RoomCommand Value) (room : RoomState Value)
      (ops : List (RoomCommand Value))
      → find_room app room_id ≡ ok (record room { tx_buffer = some ops })
      → find_room (submit app room_id op) room_id
        ≡ ok (record room { tx_buffer = some (ops ++ op ∷ []) })
  unfolding submit set_fragment del_fragment set_body del_body
  find_room-submit app room_id (State.set c k v) room ops h =
      let now : RoomState Value = record room { tx_buffer = some ops } in
      ap (λ (r : Result StateError (Unit {0}) × AppState Value). find_room r.1 room_id)
        (with_room-found app room_id (set_body c k v) h)
      ∙ find_room-stored app room_id _
      ∙ ap ok (set_on-some now.tx_buffer ops c k v now refl)
  find_room-submit app room_id (State.del c k) room ops h =
      let now : RoomState Value = record room { tx_buffer = some ops } in
      ap (λ (r : Result StateError (Unit {0}) × AppState Value). find_room r.1 room_id)
        (with_room-found app room_id (del_body c k) h)
      ∙ find_room-stored app room_id _
      ∙ ap ok (del_on-some now.tx_buffer ops c k now refl)

  find_room-submit_all :
      (app : AppState Value) (room_id : ℕ) (later : List (RoomCommand Value))
      (room : RoomState Value) (ops : List (RoomCommand Value))
      → find_room app room_id ≡ ok (record room { tx_buffer = some ops })
      → find_room (submit_all app room_id later) room_id
        ≡ ok (record room { tx_buffer = some (ops ++ later) })
  unfolding submit_all
  find_room-submit_all app room_id [] room ops h = rw append-nil h
  find_room-submit_all app room_id (op ∷ later) room ops h =
      find_room-submit_all (submit app room_id op) room_id later room (ops ++ op ∷ [])
        (find_room-submit app room_id op room ops h)
      ∙ ap (λ b. ok (record room { tx_buffer = some b })) (append_assoc ops (op ∷ []) later)

module _ {Value : Type 0} ⦃json : Json Value⦄ (app : AppState Value) (room_id : ℕ)
    (ops : List (RoomCommand Value)) {room : RoomState Value}
    (found : find_room app room_id ≡ ok room) (closed : room.tx_buffer ≡ none) where
  begin_on-none :
      (b : Option (List (RoomCommand Value)))
      → b ≡ none
      → begin_on b room ≡ (ok tt, record room { tx_buffer = some [] })
  unfolding begin_on
  begin_on-none b p = rw p

  begun :
      with_room app room_id begin_body
      ≡ (ok tt, store_room app room_id (record room { tx_buffer = some [] }))
  unfolding begin_body
  begun = rw (with_room-found app room_id begin_body found, begin_on-none room.tx_buffer closed)

  -- The room in the middle of a transaction: as before, but for the buffer.
  pub find_room-opened :
      find_room (opened app room_id ops) room_id ≡ ok (record room { tx_buffer = some ops })
  unfolding opened tx_begin
  find_room-opened = rw begun (
      find_room-submit_all (store_room app room_id (record room { tx_buffer = some [] })) room_id
        ops room [] (find_room-stored app room_id _))
