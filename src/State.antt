-- ===== src/State.antt =====
-- syncpond-server/src/state.rs: the data of rooms, the application state and the access to a room
-- through its lock. The operations are in the modules below, with their laws.
pub mod Rooms
pub mod Fragments
pub mod Transactions
pub mod Views
pub mod Settings
pub mod Tokens
pub mod Room
pub mod Run
pub mod Failures
use data_sync.Base.{
  ℕ, ◌+◌, ◌%◌, Bool, true, false, Option, none, some, List, [], ◌∷◌, Result, ok, err, nat_eq,
  if◌then◌else◌, u64_mod, ◌==◌, ◌≡◌, arith,
}
use data_sync.Dict.{Dict, get, insert, get-insert}
use data_sync.Text.{Text, lit}

pub record FragmentEntry (Value : Type 0) : Type 0 where
  pub value : Value
  pub key_version : ℕ

pub data RoomCommand (Value : Type 0) : Type 0 where
  set : Text → Text → Value → RoomCommand Value
  del : Text → Text → RoomCommand Value

abbrev pub Containers : Type 0 → Type 0
Containers Value = Dict Text (Dict Text (FragmentEntry Value))

pub record RoomState (Value : Type 0) : Type 0 where
  pub containers : Containers Value
  pub room_counter : ℕ
  pub tx_buffer : Option (List (RoomCommand Value))

-- `std::sync::RwLock<RoomState>`: a lock is poisoned once a thread panics while it holds it for
-- writing, and from then on it cannot be taken.
pub record RoomLock (Value : Type 0) : Type 0 where
  pub poisoned : Bool
  pub room : RoomState Value

pub data StateError : Type 0 where
  room_not_found container_not_found fragment_not_found fragment_tombstone : StateError
  tx_not_open tx_already_open : StateError
  jwt_key_not_configured jwt_issuer_audience_not_configured jwt_key_too_short : StateError
  command_api_key_invalid : StateError

-- `Display` of an error.
unfoldable pub display : StateError → Text
display room_not_found = lit "room_not_found"
display container_not_found = lit "container_not_found"
display fragment_not_found = lit "not_found"
display fragment_tombstone = lit "tombstone"
display tx_not_open = lit "tx_not_open"
display tx_already_open = lit "tx_already_open"
display jwt_key_not_configured = lit "jwt_key_not_configured"
display jwt_issuer_audience_not_configured = lit "jwt_issuer_audience_not_configured"
display jwt_key_too_short = lit "jwt_key_too_short"
display command_api_key_invalid = lit "command_api_key_invalid"

pub record AppState (Value : Type 0) : Type 0 where
  pub total_ws_connections : ℕ
  pub total_command_requests : ℕ
  pub command_error_count : ℕ
  pub ws_auth_success : ℕ
  pub ws_auth_failure : ℕ
  pub command_auth_failure : ℕ
  pub invalid_command_count : ℕ
  pub ws_connection_latency_ns_total : ℕ
  pub ws_connection_count : ℕ
  pub ws_update_dropped : ℕ
  pub ws_update_rate_limited : ℕ
  pub ws_send_errors : ℕ
  pub rooms : Dict ℕ (RoomLock Value)
  pub next_room_id : ℕ
  pub jwt_key : Option Text
  pub jwt_ttl_seconds : ℕ
  pub jwt_issuer : Option Text
  pub jwt_audience : Option Text
  pub last_jwt_issue_seconds : Option ℕ
  pub command_api_key : Option Text

-- `+= 1` on a `u64`; the release build that the Dockerfile makes wraps around.
unfoldable pub bump : ℕ → ℕ
bump n = (n + 1) % u64_mod

module _ {Value : Type 0} where
  -- `RoomState` as `create_room` makes it.
  abbrev pub empty_room : RoomState Value
  empty_room = record { containers = []; room_counter = 0; tx_buffer = none }

  -- `AppState::new`.
  unfoldable pub new : AppState Value
  new = record {
    total_ws_connections = 0;
    total_command_requests = 0;
    command_error_count = 0;
    ws_auth_success = 0;
    ws_auth_failure = 0;
    command_auth_failure = 0;
    invalid_command_count = 0;
    ws_connection_latency_ns_total = 0;
    ws_connection_count = 0;
    ws_update_dropped = 0;
    ws_update_rate_limited = 0;
    ws_send_errors = 0;
    rooms = [];
    next_room_id = 1;
    jwt_key = none;
    jwt_ttl_seconds = 3600;
    jwt_issuer = none;
    jwt_audience = none;
    last_jwt_issue_seconds = none;
    command_api_key = none;
  }

  -- `lock.read()` and `lock.write()`, with a poisoned lock mapped to `RoomNotFound`.
  unfoldable pub acquire : Option (RoomLock Value) → Result StateError (RoomState Value)
  acquire none = err room_not_found
  acquire (some lock) = if lock.poisoned then err room_not_found else ok lock.room

  -- The first two lines of every operation on a room.
  unfoldable pub find_room : AppState Value → ℕ → Result StateError (RoomState Value)
  unfolding acquire
  find_room app room_id = acquire (get app.rooms room_id)

  -- The room's lock is released with the new contents.
  unfoldable pub store_room : AppState Value → ℕ → RoomState Value → AppState Value
  store_room app room_id room = record app {
    rooms = insert app.rooms room_id (record { poisoned = false; room = room });
  }

-- A body that runs while the room's lock is held for writing: its result, and the room after it.
abbrev pub RoomBody : Type 0 → Type 0 → Type 0
RoomBody Value A = RoomState Value → Result StateError A × RoomState Value

module _ {Value A : Type 0} where
  release :
      AppState Value
      → ℕ
      → Result StateError A × RoomState Value
      → Result StateError A × AppState Value
  release app room_id (r, room) = (r, store_room app room_id room)

  unfoldable pub with_room :
      AppState Value → ℕ → RoomBody Value A → Result StateError A × AppState Value
  unfolding release
  with_room app room_id body = elim (find_room app room_id) [
    | err e ↦ (err e, app)
    | ok room ↦ release app room_id (body room)
  ]

  pub with_room-found :
      (app : AppState Value) (room_id : ℕ) (body : RoomBody Value A) {room : RoomState Value}
      → find_room app room_id ≡ ok room
      → with_room app room_id body ≡ ((body room).0, store_room app room_id (body room).1)
  unfolding with_room
  with_room-found app room_id body h = rw (h, with_room)

  pub with_room-missing :
      (app : AppState Value) (room_id : ℕ) (body : RoomBody Value A) {e : StateError}
      → find_room app room_id ≡ err e
      → with_room app room_id body ≡ (err e, app)
  unfolding with_room
  with_room-missing app room_id body h = rw (h, with_room)

module _ {Value : Type 0} where
  pub find_room-store_room :
      (app : AppState Value) (room_id j : ℕ) (room : RoomState Value)
      → find_room (store_room app room_id room) j
        ≡ (if room_id == j then ok room else find_room app j)
  unfolding find_room store_room
  find_room-store_room app room_id j room =
      ground (arith, get-insert app.rooms room_id j (record { poisoned = false; room = room }))

  -- The only error in taking a room's lock.
  pub find_room-err :
      (app : AppState Value) (room_id : ℕ) {e : StateError}
      → find_room app room_id ≡ err e
      → e ≡ room_not_found
  unfolding find_room
  find_room-err app room_id h = ground arith
