-- ===== src/State/Run.antt =====
-- Sequences of the operations of syncpond-server/src/state.rs that change rooms, in any order. All
-- of them hold the application's lock, so that a run of the server is such a sequence.
pub mod Valid
pub mod Steps
pub mod Sync
use data_sync.Base.{ℕ, List, [], ◌∷◌, Result, ok}
use data_sync.Text.{Text}
use data_sync.Json.{Json}
use data_sync.State.{AppState, StateError}
use data_sync.State.Rooms.{create_room, delete_room}
use data_sync.State.Fragments.{set_fragment, del_fragment}
use data_sync.State.Transactions.{tx_begin, tx_end, tx_abort}

pub data Call (Value : Type 0) : Type 0 where
  create : Call Value
  delete begin end abort : ℕ → Call Value
  set : ℕ → Text → Text → Value → Call Value
  del : ℕ → Text → Text → Call Value

module _ {Value : Type 0} ⦃json : Json Value⦄ where
  -- The state after a call, whether the call succeeds or not.
  unfoldable pub after : AppState Value → Call Value → AppState Value
  unfolding create_room delete_room set_fragment del_fragment tx_begin tx_end tx_abort
  after app create = (create_room app).1
  after app (delete room_id) = (delete_room app room_id).1
  after app (begin room_id) = (tx_begin app room_id).1
  after app (end room_id) = (tx_end app room_id).1
  after app (abort room_id) = (tx_abort app room_id).1
  after app (set room_id container key value) = (set_fragment app room_id container key value).1
  after app (del room_id container key) = (del_fragment app room_id container key).1

  -- Its result, without the id that `create_room` returns.
  unfoldable pub outcome : AppState Value → Call Value → Result StateError (Unit {0})
  unfolding delete_room set_fragment del_fragment tx_begin tx_end tx_abort
  outcome app create = ok tt
  outcome app (delete room_id) = (delete_room app room_id).0
  outcome app (begin room_id) = (tx_begin app room_id).0
  outcome app (end room_id) = (tx_end app room_id).0
  outcome app (abort room_id) = (tx_abort app room_id).0
  outcome app (set room_id container key value) = (set_fragment app room_id container key value).0
  outcome app (del room_id container key) = (del_fragment app room_id container key).0

  unfoldable pub run : AppState Value → List (Call Value) → AppState Value
  unfolding after
  run app [] = app
  run app (call ∷ calls) = run (after app call) calls
