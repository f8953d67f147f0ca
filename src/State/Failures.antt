-- ===== src/State/Failures.antt =====
-- An operation that fails leaves the application as it was.
use data_sync.Base.{
  ℕ, ◌≡◌, refl, Option, none, some, List, Result, ok, err, arith, ap, Bool-cases, inl, inr, nat_eq,
}
use data_sync.Dict.{insert-get_self, contains_key}
use data_sync.Text.{Text, text_eq}
use data_sync.Json.{Json}
use data_sync.State.{
  AppState, RoomState, RoomBody, RoomCommand, StateError, find_room, store_room, with_room,
  with_room-found, with_room-missing,
}
use data_sync.State.Fragments.{set_body, del_body, set_on, del_on, set_fragment, del_fragment}
use data_sync.State.Transactions.{
  begin_body, end_body, abort_body, begin_on, end_on, tx_begin, tx_end, tx_abort,
}
use data_sync.State.Rooms.{delete_room}
use data_sync.State.Run.{Call, create, delete, begin, end, abort, set, del, after, outcome}
use data_sync.State.Run.Valid.{find_room-ok}

module _ {Value : Type 0} where
  store_room-found :
      (app : AppState Value) (room_id : ℕ) (room : RoomState Value)
      → find_room app room_id ≡ ok room
      → store_room app room_id room ≡ app
  unfolding store_room
  store_room-found app room_id room h =
      rw (insert-get_self app.rooms room_id _ (find_room-ok app room_id room h))

  with_room_failed :
      {A : Type 0} (app : AppState Value) (room_id : ℕ) (body : RoomBody Value A) {e : StateError}
      → ((room : RoomState Value) → (body room).0 ≡ err e → (body room).1 ≡ room)
      → (with_room app room_id body).0 ≡ err e
      → (with_room app room_id body).1 ≡ app
  with_room_failed app room_id body {e} keeps h = go (find_room app room_id) refl
    where
      go :
          (r : Result StateError (RoomState Value))
          → find_room app room_id ≡ r
          → (with_room app room_id body).1 ≡ app
      go (err f) p = rw (with_room-missing app room_id body p)
      go (ok room) p =
          let q = with_room-found app room_id body p in
          let same = keeps room (cc (ap (λ r. r.0) q, h)) in
          rw (q, same) (store_room-found app room_id room p)

  set_on_failed :
      (b : Option (List (RoomCommand Value))) (c k : Text) (v : Value) (room : RoomState Value)
      {e : StateError}
      → (set_on b c k v room).0 ≡ err e
      → (set_on b c k v room).1 ≡ room
  unfolding set_on
  set_on_failed none c k v room h = cc
  set_on_failed (some ops) c k v room h = cc

  begin_on_failed :
      (b : Option (List (RoomCommand Value))) (room : RoomState Value) {e : StateError}
      → (begin_on b room).0 ≡ err e
      → (begin_on b room).1 ≡ room
  unfolding begin_on
  begin_on_failed none room h = cc
  begin_on_failed (some ops) room h = refl

  abort_failed :
      (room : RoomState Value) {e : StateError}
      → (abort_body room).0 ≡ err e
      → (abort_body room).1 ≡ room
  unfolding abort_body
  abort_failed room h = cc

module _ {Value : Type 0} ⦃json : Json Value⦄ where
  del_on_failed :
      (b : Option (List (RoomCommand Value))) (c k : Text) (room : RoomState Value) {e : StateError}
      → (del_on b c k room).0 ≡ err e
      → (del_on b c k room).1 ≡ room
  unfolding del_on
  del_on_failed none c k room h = elim (Bool-cases (contains_key room.containers c)) [
    | inl there ↦ absurd (ground arith)
    | inr gone ↦ rw gone
  ]
  del_on_failed (some ops) c k room h = cc

  end_on_failed :
      (b : Option (List (RoomCommand Value))) (room : RoomState Value) {e : StateError}
      → (end_on b room).0 ≡ err e
      → (end_on b room).1 ≡ room
  unfolding end_on
  end_on_failed none room h = refl
  end_on_failed (some ops) room h = cc

  delete_room_failed :
      (app : AppState Value) (room_id : ℕ) {e : StateError}
      → (delete_room app room_id).0 ≡ err e
      → (delete_room app room_id).1 ≡ app
  unfolding delete_room
  delete_room_failed app room_id h = elim (Bool-cases (contains_key app.rooms room_id)) [
    | inl there ↦ absurd (ground arith)
    | inr gone ↦ rw gone
  ]

  -- A call that returns an error leaves the whole application state as it was, whatever the call
  -- and whatever the error.
  pub after-err :
      (app : AppState Value) (call : Call Value) (e : StateError)
      → outcome app call ≡ err e
      → after app call ≡ app
  unfolding outcome after set_fragment del_fragment tx_begin tx_end tx_abort set_body del_body
      begin_body end_body
  after-err app create e h = cc
  after-err app (delete room_id) e h = delete_room_failed app room_id h
  after-err app (begin room_id) e h =
      with_room_failed app room_id begin_body (λ room. begin_on_failed room.tx_buffer room) h
  after-err app (end room_id) e h =
      with_room_failed app room_id end_body (λ room. end_on_failed room.tx_buffer room) h
  after-err app (abort room_id) e h =
      with_room_failed app room_id abort_body (λ room. abort_failed room) h
  after-err app (set room_id c k v) e h =
      with_room_failed app room_id (set_body c k v)
        (λ room. set_on_failed room.tx_buffer c k v room) h
  after-err app (del room_id c k) e h =
      with_room_failed app room_id (del_body c k) (λ room. del_on_failed room.tx_buffer c k room) h
