-- ===== src/Commands/Process/Kept.antt =====
-- What no line changes: whatever does not depend on the rooms, the next id and the key of tokens.
use data_sync.Base.{ℕ, ◌≡◌, refl, ap, ◌∙◌, Result, ok, err, Bool-cases, inl, inr, nat_eq}
use data_sync.Dict.{Dict, contains_key}
use data_sync.Text.{Text}
use data_sync.Json.{Json}
use data_sync.State.{
  AppState, RoomState, RoomLock, RoomBody, StateError, find_room, store_room, with_room,
  with_room-found, with_room-missing,
}
use data_sync.State.Rooms.{create_room, delete_room}
use data_sync.State.Fragments.{set_fragment, del_fragment}
use data_sync.State.Transactions.{tx_begin, tx_end, tx_abort}
use data_sync.State.Settings.{set_jwt_key}
use data_sync.State.Run.{Call, create, delete, begin, end, abort, set, del, after}
use data_sync.Commands.Process.Effects.{IsEffect, nothing, called, keyed}

module _ {Value A : Type 0} (f : AppState Value → A)
    (rooms : (app : AppState Value) (rooms : Dict ℕ (RoomLock Value)) (next_room_id : ℕ)
      → f (record app { rooms = rooms; next_room_id = next_room_id }) ≡ f app) where
  kept-with_room :
      {B : Type 0} (app : AppState Value) (room_id : ℕ) (body : RoomBody Value B)
      → f (with_room app room_id body).1 ≡ f app
  kept-with_room app room_id body = go (find_room app room_id) refl
    where
      go :
          (r : Result StateError (RoomState Value))
          → find_room app room_id ≡ r
          → f (with_room app room_id body).1 ≡ f app
      go (err e) p = rw (with_room-missing app room_id body p)
      go (ok room) p =
          rw (with_room-found app room_id body p)
            (unfold store_room in rooms app _ app.next_room_id)

  kept-delete_room : (app : AppState Value) (room_id : ℕ) → f (delete_room app room_id).1 ≡ f app
  unfolding delete_room
  kept-delete_room app room_id = elim (Bool-cases (contains_key app.rooms room_id)) [
    | inl there ↦ rw there (rooms app _ app.next_room_id)
    | inr gone ↦ rw gone
  ]

  kept-after :
      ⦃json : Json Value⦄ (app : AppState Value) (call : Call Value) → f (after app call) ≡ f app
  unfolding after set_fragment del_fragment tx_begin tx_end tx_abort
  kept-after app create = unfold create_room in rooms app _ _
  kept-after app (delete room_id) = kept-delete_room app room_id
  kept-after app (begin room_id) = kept-with_room app room_id _
  kept-after app (end room_id) = kept-with_room app room_id _
  kept-after app (abort room_id) = kept-with_room app room_id _
  kept-after app (set room_id c k v) = kept-with_room app room_id _
  kept-after app (del room_id c k) = kept-with_room app room_id _

  pub kept-IsEffect :
      ⦃json : Json Value⦄ (app app' : AppState Value)
      → ((key : Text) → f (set_jwt_key app key) ≡ f app)
      → IsEffect app app'
      → f app' ≡ f app
  kept-IsEffect app app' set_key (nothing p) = ap f p
  kept-IsEffect app app' set_key (called call p) = ap f p ∙ kept-after app call
  kept-IsEffect app app' set_key (keyed key p) = ap f p ∙ set_key key
