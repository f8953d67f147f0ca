-- ===== src/Server.antt =====
-- syncpond-server/src/main.rs: command connections among one another. Between two points where
-- `handle_command_connection` waits, for a lock or for its socket, it is at one place; a step goes
-- from a place to the next, and steps of the connections come in any order.
pub mod Calls
pub mod History
pub mod Validity
pub mod Metrics
pub mod Expected
pub mod Answered
pub mod Replies
pub mod Steps
pub mod Keys
pub mod Locked
pub mod Budget
pub mod Finished
use data_sync.Base.{
  ℕ, zero, suc, Bool, true, false, Option, none, some, List, [], ◌∷◌, ◌++◌, if◌then◌else◌,
}
use data_sync.Text.{Text, lit, is_empty}
use data_sync.Text.Trim.{trim}
use data_sync.Text.Number.{print_u64}
use data_sync.Json.{Json}
use data_sync.Jwt.{Jwt}
use data_sync.Limiter.{allow}
use data_sync.Commands.Handlers.{RoomUpdate}
use data_sync.Commands.Process.{process_command}
use data_sync.Compare.{constant_time_eq}
use data_sync.Reading.{Input, read_line_with_limit}
use data_sync.Hub.{Channel, broadcast_update}
use data_sync.Console.{
  Limits, Shared, room_deleted, count_request, count_invalid, count_auth_failure, count_reply,
  clean_hub,
}

-- Where a connection is, with the local variables that are live there.
pub data Place (Value : Type 0) : Type 0 where
  limiting auth_limiting greeting : Place Value
  keying refusing refused : Text → Place Value
  looping malformed miscounted : Place Value
  counting processing : Text → Place Value
  scoring answering : Text → Text → List (RoomUpdate Value) → Place Value
  cleaning : Option ℕ → List (RoomUpdate Value) → Place Value
  sending broadcasting : RoomUpdate Value → List (RoomUpdate Value) → Place Value
  closed : Place Value

-- What comes from outside in a step: the limiter's instant, the next line, the lock of the
-- application with the time in seconds, the lock of the hub, its instants for the clients, and
-- whether a write succeeds.
pub data Event : Type 0 where
  limits_at : ℕ → Event
  reads : Event
  locks : ℕ → Event
  locks_hub : (Text → ℕ) → Event
  writes : Bool → Event

-- A connection: its peer, what it is still to read, where it is, and what it has written.
pub record Connection (Value : Type 0) : Type 0 where
  pub ip : Text
  pub lines : List Input
  pub place : Place Value
  pub written : List Text

module _ {Value : Type 0} where
  -- A connection that was just accepted.
  abbrev pub arriving : Text → List Input → Connection Value
  arriving ip lines = record { ip = ip; lines = lines; place = limiting; written = [] }

  abbrev pub first_read : Option Text → Place Value
  first_read none = closed
  first_read (some []) = closed
  first_read (some (c ∷ cs)) = keying (trim (c ∷ cs))

  unfoldable pub key_read : Text → Option Text → Place Value
  unfolding constant_time_eq
  key_read provided_key none = refusing (lit "ERROR api_key_not_configured\n")
  key_read provided_key (some expected_key) =
      if constant_time_eq provided_key expected_key
      then looping
      else refusing (lit "ERROR invalid_api_key\n")

  unfoldable pub line_read : Option Text → Place Value
  unfolding trim
  line_read none = malformed
  line_read (some []) = closed
  line_read (some (c ∷ cs)) = if is_empty (trim (c ∷ cs)) then looping else counting (trim (c ∷ cs))

  abbrev pub next_update : List (RoomUpdate Value) → Place Value
  next_update [] = looping
  next_update (update ∷ updates) = sending update updates

  -- The next line of a connection goes to `go`; where there is none yet, the connection waits.
  unfoldable pub read :
      (Option Text → Place Value) → List Input → Connection Value → Connection Value
  unfolding read_line_with_limit
  read go [] c = c
  read go (input ∷ lines) c = record c { lines = lines; place = go (read_line_with_limit input) }

  -- A write of a text, and where the connection is after it.
  unfoldable pub write : Bool → Text → Place Value → Connection Value → Connection Value
  write true text place c = record c { written = c.written ++ text ∷ []; place = place }
  write false text place c = record c { place = closed }

-- A step of a connection; where the event is not what it waits for, nothing happens.
module _ {Value Sender : Type 0} ⦃json : Json Value⦄ (jwt : Jwt) (channel : Channel Sender Value)
    (limits : Limits) where
  unfoldable pub move :
      Place Value
      → Event
      → Connection Value
      → Shared Value Sender
      → Connection Value × Shared Value Sender
  unfolding allow read write key_read line_read process_command broadcast_update count_request
      count_invalid count_auth_failure count_reply clean_hub room_deleted print_u64
  move limiting (limits_at now) c s =
      let (allowed, commands) =
        allow s.commands c.ip limits.cmd_rate_limit limits.cmd_rate_window now in
      (
        record c { place = if allowed then auth_limiting else closed },
        record s { commands = commands },
      )
  move auth_limiting (limits_at now) c s =
      let (allowed, command_auths) =
        allow s.command_auths c.ip limits.command_auth_rate_limit limits.command_auth_rate_window
          now in
      (
        record c { place = if allowed then greeting else closed },
        record s { command_auths = command_auths },
      )
  move greeting reads c s = (read first_read c.lines c, s)
  move (keying provided_key) (locks _) c s =
      (record c { place = key_read provided_key s.app.command_api_key }, s)
  move (refusing message) (locks _) c s =
      (record c { place = refused message }, record s { app = count_auth_failure s.app })
  move (refused message) (writes done) c s = (write done message closed c, s)
  move looping reads c s = (read line_read c.lines c, s)
  move malformed (writes done) c s = (write done (lit "ERROR malformed_request\n") miscounted c, s)
  move miscounted (locks _) c s =
      (record c { place = closed }, record s { app = count_invalid s.app })
  move (counting trimmed) (locks _) c s =
      (record c { place = processing trimmed }, record s { app = count_request s.app })
  move (processing trimmed) (locks clock) c s =
      let ((resp, updates), app) = process_command jwt clock s.app trimmed in
      (record c { place = scoring trimmed resp updates }, record s { app = app })
  move (scoring trimmed resp updates) (locks _) c s = (
    record c { place = answering trimmed resp updates },
    record s { app = count_reply resp s.app },
  )
  move (answering trimmed resp updates) (writes done) c s =
      (write done (resp ++ lit "\n") (cleaning (room_deleted trimmed resp) updates) c, s)
  move (cleaning room updates) (locks_hub _) c s =
      (record c { place = next_update updates }, clean_hub room s)
  move (sending update updates) (limits_at now) c s =
      let (allowed, ws_rooms) =
        allow s.ws_rooms (lit "room:" ++ print_u64 update.room_id) limits.ws_room_rate_limit
          limits.ws_room_rate_window now in
      (
        record c { place = if allowed then broadcasting update updates else next_update updates },
        record s { ws_rooms = ws_rooms },
      )
  move (broadcasting update updates) (locks_hub client_now) c s =
      let (hub, ws_updates) =
        broadcast_update channel limits.ws_update_rate_limit limits.ws_update_rate_window client_now
          update s.hub s.ws_updates in
      (record c { place = next_update updates }, record s { hub = hub; ws_updates = ws_updates })
  move place event c s = (c, s)

  -- A step of the connection of a number.
  unfoldable pub step_one :
      List (Connection Value)
      → ℕ
      → Event
      → Shared Value Sender
      → List (Connection Value) × Shared Value Sender
  unfolding move
  step_one [] i event s = ([], s)
  step_one (c ∷ cs) zero event s = let (c', s') = move c.place event c s in (c' ∷ cs, s')
  step_one (c ∷ cs) (suc i) event s = let (cs', s') = step_one cs i event s in (c ∷ cs', s')

  -- The steps of a schedule, one after the other.
  unfoldable pub interleave :
      List (ℕ × Event)
      → List (Connection Value) × Shared Value Sender
      → List (Connection Value) × Shared Value Sender
  unfolding step_one
  interleave [] (cs, s) = (cs, s)
  interleave ((i, event) ∷ schedule) (cs, s) = interleave schedule (step_one cs i event s)
