-- ===== src/Console/Requests.antt =====
-- The calls of State.Run, on the rooms alone.
use data_sync.Base.{
  ℕ, ◌≡◌, refl, List, [], ◌∷◌, Result, ok, err, ap, ◌∙◌, nat_eq, Bool-cases, inl, inr,
}
use data_sync.Dict.{contains_key}
use data_sync.Json.{Json}
use data_sync.State.{
  AppState, RoomState, RoomBody, StateError, new, find_room, store_room, with_room, with_room-found,
  with_room-missing,
}
use data_sync.State.Rooms.{create_room, delete_room}
use data_sync.State.Fragments.{set_fragment, del_fragment}
use data_sync.State.Transactions.{tx_begin, tx_end, tx_abort}
use data_sync.State.Run.{Call, create, delete, begin, end, abort, set, del, after, run}

module _ {Value : Type 0} where
  -- The rooms and the next id, without the counters and the settings.
  unfoldable pub rooms_of : AppState Value → AppState Value
  rooms_of app = record new { rooms = app.rooms; next_room_id = app.next_room_id }

  rooms_of-with_room :
      {A : Type 0} (app : AppState Value) (room_id : ℕ) (body : RoomBody Value A)
      → rooms_of (with_room app room_id body).1 ≡ (with_room (rooms_of app) room_id body).1
  rooms_of-with_room app room_id body = go (find_room app room_id) refl
    where
      same : find_room (rooms_of app) room_id ≡ find_room app room_id
      same = unfold find_room rooms_of in refl

      go :
          (r : Result StateError (RoomState Value))
          → find_room app room_id ≡ r
          → rooms_of (with_room app room_id body).1 ≡ (with_room (rooms_of app) room_id body).1
      go (err e) p = rw (
        with_room-missing app room_id body p,
        with_room-missing (rooms_of app) room_id body (same ∙ p),
      )
      go (ok room) p =
          rw
            (
              with_room-found app room_id body p,
              with_room-found (rooms_of app) room_id body (same ∙ p),
            )
            (unfold rooms_of store_room in refl)

  rooms_of-delete_room :
      (app : AppState Value) (room_id : ℕ)
      → rooms_of (delete_room app room_id).1 ≡ (delete_room (rooms_of app) room_id).1
  unfolding rooms_of delete_room
  rooms_of-delete_room app room_id = elim (Bool-cases (contains_key app.rooms room_id)) [
    | inl there ↦ rw there
    | inr gone ↦ rw gone
  ]

module _ {Value : Type 0} ⦃json : Json Value⦄ where
  -- The calls see nothing but the rooms.
  pub rooms_of-after :
      (app : AppState Value) (call : Call Value)
      → rooms_of (after app call) ≡ after (rooms_of app) call
  unfolding after set_fragment del_fragment tx_begin tx_end tx_abort
  rooms_of-after app create = unfold rooms_of create_room in refl
  rooms_of-after app (delete room_id) = rooms_of-delete_room app room_id
  rooms_of-after app (begin room_id) = rooms_of-with_room app room_id _
  rooms_of-after app (end room_id) = rooms_of-with_room app room_id _
  rooms_of-after app (abort room_id) = rooms_of-with_room app room_id _
  rooms_of-after app (set room_id c k v) = rooms_of-with_room app room_id _
  rooms_of-after app (del room_id c k) = rooms_of-with_room app room_id _

  pub rooms_of-run :
      (app : AppState Value) (calls : List (Call Value))
      → rooms_of (run app calls) ≡ run (rooms_of app) calls
  unfolding run
  rooms_of-run app [] = refl
  rooms_of-run app (call ∷ calls) =
      rooms_of-run (after app call) calls ∙ ap (λ a. run a calls) (rooms_of-after app call)
