-- ===== src/Console.antt =====
-- syncpond-server/src/main.rs: `handle_command_connection`, with the limiters, the hub and the
-- application that it shares with the other tasks. What it reads, whether its writes succeed, and the
-- clocks come from outside. A connection takes each lock and gives it back before it waits again.
pub mod Key
pub mod Replies
pub mod Requests
pub mod Refinement
pub mod Validity
pub mod Cases
pub mod Counts
pub mod Metrics
pub mod Writes
use data_sync.Base.{
  ℕ, ◌+◌, ◌<◌, not, Bool, true, false, ◌&&◌, ◌||◌, Option, none, some, List, [], ◌∷◌, ◌++◌, Result,
  ok, err, nat_eq, if◌then◌else◌, ltb, leb, length, ◌==◌,
}
use data_sync.Text.{Text, lit, text_eq, is_empty, len, starts_with, is_whitespace}
use data_sync.Text.Trim.{trim}
use data_sync.Text.Number.{print_u64, parse_u64}
use data_sync.Reading.{Input, read_line_with_limit, split_whitespace}
use data_sync.Json.{Json}
use data_sync.Jwt.{Jwt}
use data_sync.State.{AppState}
use data_sync.State.Tokens.{saturating_add}
use data_sync.Limiter.{allow}
use data_sync.Commands.Handlers.{RoomUpdate, Reply}
use data_sync.Commands.Process.{process_command}
use data_sync.Compare.{constant_time_eq}
use data_sync.Hub.{WsHub, Buckets, Channel, broadcast_update, remove_room}

pub record Limits : Type 0 where
  pub cmd_rate_limit : ℕ
  pub cmd_rate_window : ℕ
  pub command_auth_rate_limit : ℕ
  pub command_auth_rate_window : ℕ
  pub ws_update_rate_limit : ℕ
  pub ws_update_rate_window : ℕ
  pub ws_room_rate_limit : ℕ
  pub ws_room_rate_window : ℕ

-- What the connections share.
pub record Shared (Value Sender : Type 0) : Type 0 where
  pub app : AppState Value
  pub hub : WsHub Sender
  pub commands : Buckets
  pub command_auths : Buckets
  pub ws_updates : Buckets
  pub ws_rooms : Buckets

-- A round of the loop: what is read, whether the answer is written, and the clocks. A command sends
-- one update at most, so that one instant serves for the limiter of rooms.
pub record Turn : Type 0 where
  pub input : Input
  pub written : Bool
  pub clock : ℕ
  pub room_now : ℕ
  pub client_now : Text → ℕ

abbrev second : List Text → Option Text
second [] = none
second (a ∷ []) = none
second (a ∷ b ∷ more) = some b

abbrev parse_second : Option Text → Option ℕ
parse_second none = none
parse_second (some part) = parse_u64 part

-- `room_deleted`: the id as it is read off the line again.
unfoldable pub room_deleted : Text → Text → Option ℕ
unfolding split_whitespace starts_with
room_deleted trimmed resp =
    if starts_with trimmed (lit "ROOM.DELETE") && resp == lit "OK"
    then parse_second (second (split_whitespace trimmed []))
    else none

unfoldable pub is_invalid : Text → Bool
unfolding starts_with
is_invalid resp =
    starts_with resp (lit "ERROR invalid_")
    || resp == lit "ERROR unknown_command"
    || resp == lit "ERROR missing_argument"

module _ {Value : Type 0} where
  unfoldable pub count_request : AppState Value → AppState Value
  unfolding saturating_add
  count_request app = record app {
    total_command_requests = saturating_add app.total_command_requests 1;
  }

  unfoldable pub count_invalid : AppState Value → AppState Value
  unfolding saturating_add
  count_invalid app = record app {
    invalid_command_count = saturating_add app.invalid_command_count 1;
  }

  unfoldable pub count_auth_failure : AppState Value → AppState Value
  unfolding saturating_add
  count_auth_failure app = record app {
    command_auth_failure = saturating_add app.command_auth_failure 1;
  }

  unfoldable pub count_reply : Text → AppState Value → AppState Value
  unfolding count_invalid is_invalid
  count_reply resp app =
      let counted = record app { command_error_count = saturating_add app.command_error_count 1 } in
      if starts_with resp (lit "ERROR")
      then (if is_invalid resp then count_invalid counted else counted)
      else app

module _ {Value Sender : Type 0} where
  unfoldable pub clean_hub : Option ℕ → Shared Value Sender → Shared Value Sender
  unfolding remove_room
  clean_hub none s = s
  clean_hub (some room_id) s = record s { hub = remove_room s.hub room_id }

module _ {Value Sender : Type 0} ⦃json : Json Value⦄ (jwt : Jwt) (channel : Channel Sender Value)
    (limits : Limits) where
  unfoldable pub send_update : Turn → Shared Value Sender → RoomUpdate Value → Shared Value Sender
  unfolding allow broadcast_update print_u64
  send_update turn s update =
      let room_key = lit "room:" ++ print_u64 update.room_id in
      let (room_allowed, ws_rooms) =
        allow s.ws_rooms room_key limits.ws_room_rate_limit limits.ws_room_rate_window
          turn.room_now in
      let (hub, ws_updates) =
        broadcast_update channel limits.ws_update_rate_limit limits.ws_update_rate_window
          turn.client_now update s.hub s.ws_updates in
      if room_allowed
      then record s { ws_rooms = ws_rooms; hub = hub; ws_updates = ws_updates }
      else record s { ws_rooms = ws_rooms }

  unfoldable pub send_updates :
      Turn → Shared Value Sender → List (RoomUpdate Value) → Shared Value Sender
  unfolding send_update
  send_updates turn s [] = s
  send_updates turn s (update ∷ updates) = send_updates turn (send_update turn s update) updates

  -- A command after it was processed; where its answer cannot be written, nothing more happens.
  unfoldable pub conclude :
      Turn → Text → Shared Value Sender → Reply Value × AppState Value → Text × Shared Value Sender
  unfolding count_reply send_updates clean_hub room_deleted
  conclude turn trimmed s ((resp, updates), app) =
      let counted = record s { app = count_reply resp app } in
      (
        resp,
        if turn.written
            then send_updates turn (clean_hub (room_deleted trimmed resp) counted) updates
            else counted,
      )

  unfoldable pub run_command : Turn → Text → Shared Value Sender → Text × Shared Value Sender
  unfolding conclude process_command count_request
  run_command turn trimmed s =
      conclude turn trimmed s (process_command jwt turn.clock (count_request s.app) trimmed)

  -- What a round writes, the state after it, and whether the loop goes on.
  unfoldable pub on_line :
      Turn → Option Text → Shared Value Sender → List Text × Shared Value Sender × Bool
  unfolding run_command count_invalid trim
  on_line turn none s =
      if turn.written
      then (lit "ERROR malformed_request\n" ∷ [], record s { app = count_invalid s.app }, false)
      else ([], s, false)
  on_line turn (some []) s = ([], s, false)
  on_line turn (some (c ∷ cs)) s =
      let trimmed = trim (c ∷ cs) in
      let (resp, s') = run_command turn trimmed s in
      if is_empty trimmed
      then ([], s, true)
      else ((if turn.written then (resp ++ lit "\n") ∷ [] else []), s', turn.written)

  unfoldable pub serve_lines : List Turn → Shared Value Sender → List Text × Shared Value Sender
  unfolding on_line read_line_with_limit
  serve_lines [] s = ([], s)
  serve_lines (turn ∷ turns) s =
      let (out, s', on) = on_line turn (read_line_with_limit turn.input) s in
      let (later, s'') = serve_lines turns s' in if on then (out ++ later, s'') else (out, s')

  -- A key that is not accepted.
  unfoldable pub reject : Bool → Text → Shared Value Sender → List Text × Shared Value Sender
  unfolding count_auth_failure
  reject written message s =
      ((if written then message ∷ [] else []), record s { app = count_auth_failure s.app })

  unfoldable pub check_key :
      Bool → Text → Option Text → List Turn → Shared Value Sender → List Text × Shared Value Sender
  unfolding constant_time_eq reject serve_lines
  check_key written provided_key none turns s =
      reject written (lit "ERROR api_key_not_configured\n") s
  check_key written provided_key (some expected_key) turns s =
      if constant_time_eq provided_key expected_key
      then serve_lines turns s
      else reject written (lit "ERROR invalid_api_key\n") s

  unfoldable pub on_key :
      Bool → Option Text → List Turn → Shared Value Sender → List Text × Shared Value Sender
  unfolding check_key trim
  on_key written none turns s = ([], s)
  on_key written (some []) turns s = ([], s)
  on_key written (some (c ∷ cs)) turns s =
      check_key written (trim (c ∷ cs)) s.app.command_api_key turns s

  -- A connection from its first line to what it has read so far.
  unfoldable pub handle_command_connection :
      Text
      → ℕ
      → ℕ
      → Input
      → Bool
      → List Turn
      → Shared Value Sender
      → List Text × Shared Value Sender
  unfolding allow on_key read_line_with_limit
  handle_command_connection ip now now' first written turns s =
      let (allowed, commands) =
        allow s.commands ip limits.cmd_rate_limit limits.cmd_rate_window now in
      let (auth_allowed, command_auths) =
        allow s.command_auths ip limits.command_auth_rate_limit limits.command_auth_rate_window
          now' in
      let counted = record s { commands = commands } in
      let s' = record counted { command_auths = command_auths } in
      if not allowed
      then ([], counted)
      else if not auth_allowed
      then ([], s')
      else on_key written (read_line_with_limit first) turns s'
