-- ===== src/Session.antt =====
-- syncpond-server/src/ws.rs: `handle_ws_connection`. The pieces of the handler are here, what it
-- does while it waits for the locks is in `Machine`. Messages are those of the crate `tungstenite`.
pub mod Forwarding
pub mod Machine
pub mod Blocked
pub mod Early
pub mod Admission
pub mod Refusal
use data_sync.Base.{
  ℕ, ◌+◌, ◌-◌, Bool, true, false, not, Option, none, some, List, [], ◌∷◌, ◌++◌, Result, ok, err,
  nat_eq, if◌then◌else◌, ltb, ◌==◌, ◌^◌,
}
use data_sync.Text.{Text, lit, text_eq, is_empty}
use data_sync.Sets.{contains}
use data_sync.Json.{Json}
use data_sync.State.{AppState, bump}
use data_sync.State.Views.{RoomView, view_json}

-- `AuthMessage`, which `serde` reads from the text of a message.
pub record AuthMessage : Type 0 where
  pub typ : Text
  pub jwt : Text
  pub last_seen_counter : Option ℕ

pub data Message : Type 0 where
  text ping : Text → Message
  binary pong close frame : Message

-- What `ws_receiver.next()` gives.
pub data Received : Type 0 where
  got : Message → Received
  failed ended : Received

-- What the session sends.
pub data Outgoing : Type 0 where
  say answer_ping : Text → Outgoing
  close_frame : Outgoing

-- The callback of the handshake, where origins are configured: the answer, or its status and body.
unfoldable pub check_origin : List Text → Option Text → Result (ℕ × Text) (Unit {0})
unfolding contains
check_origin origins none = err (400, lit "missing_origin")
check_origin origins (some origin) =
    if contains origins origin then ok tt else err (403, lit "origin_not_allowed: " ++ origin)

-- Without configured origins there is no callback.
unfoldable pub handshake : List Text → Option Text → Result (ℕ × Text) (Unit {0})
unfolding check_origin
handshake ws_allowed_origins origin =
    if is_empty ws_allowed_origins then ok tt else check_origin ws_allowed_origins origin

-- What the first message leads to.
pub data Opening : Type 0 where
  check : AuthMessage → Opening
  refuse : Text → Opening
  quit : Opening

abbrev pub opened_by : Option AuthMessage → Opening
opened_by none = refuse (lit "invalid_json")
opened_by (some auth_msg) =
    if auth_msg.typ == lit "auth" then check auth_msg else refuse (lit "missing_auth")

-- `parse` is `serde_json::from_str` at `AuthMessage`.
unfoldable pub first_message : (Text → Option AuthMessage) → Received → Opening
first_message parse (got (text txt)) = opened_by (parse txt)
first_message parse (got (ping payload)) = refuse (lit "invalid_auth_message")
first_message parse (got binary) = refuse (lit "invalid_auth_message")
first_message parse (got pong) = refuse (lit "invalid_auth_message")
first_message parse (got close) = refuse (lit "invalid_auth_message")
first_message parse (got frame) = refuse (lit "invalid_auth_message")
first_message parse failed = quit
first_message parse ended = quit

module _ {Value : Type 0} where
  unfoldable pub count_failure : AppState Value → AppState Value
  unfolding bump
  count_failure app = record app { ws_auth_failure = bump app.ws_auth_failure }

  unfoldable pub count_success : AppState Value → AppState Value
  unfolding bump
  count_success app = record app { ws_auth_success = bump app.ws_auth_success }

  -- `saturating_add(1)` on a `usize`.
  unfoldable pub count_opened : AppState Value → AppState Value
  count_opened app = record app {
    total_ws_connections =
        if ltb (app.total_ws_connections + 1) (2 ^ 64)
        then app.total_ws_connections + 1
        else app.total_ws_connections;
  }

  -- `saturating_sub(1)`, and `saturating_add` on a `u128`.
  unfoldable pub count_closed : ℕ → AppState Value → AppState Value
  unfolding bump
  count_closed elapsed_ns app =
      let total = app.ws_connection_latency_ns_total + elapsed_ns in
      record app {
        total_ws_connections = app.total_ws_connections - 1;
        ws_connection_latency_ns_total = if ltb total (2 ^ 128) then total else 2 ^ 128 - 1;
        ws_connection_count = bump app.ws_connection_count;
      }

module _ (Value : Type 0) ⦃json : Json Value⦄ where
  unfoldable pub auth_error : Text → Outgoing
  auth_error reason = say (
      json.to_string (
        json.object
          ((lit "type", json.string (lit "auth_error")) ∷ (lit "reason", json.string reason) ∷ [])))

  unfoldable pub invalid_token : Text → Outgoing
  invalid_token detail = say (
      json.to_string (
        json.object (
          (lit "type", json.string (lit "auth_error"))
          ∷ (lit "reason", json.string (lit "invalid_jwt"))
          ∷ (lit "detail", json.string detail)
          ∷ [])))

module _ {Value : Type 0} ⦃json : Json Value⦄ where
  unfoldable pub auth_ok : ℕ → RoomView Value → Outgoing
  unfolding view_json
  auth_ok room_counter view = say (
      json.to_string (
        json.object (
          (lit "type", json.string (lit "auth_ok"))
          ∷ (lit "room_counter", json.number room_counter)
          ∷ (lit "state", view_json view)
          ∷ [])))
