-- ===== src/Session/Machine.antt =====
-- A session of syncpond-server/src/ws.rs among the other tasks: between two points where it waits,
-- for a lock, a message or a socket, it is in a phase. The lock of the application is `RwLock` of
-- the crate `tokio`: a guard for writing is given only while there is no other guard.
use data_sync.Base.{
  ◌≡◌, ℕ, ◌+◌, ◌-◌, Bool, true, false, not, ◌&&◌, Option, none, some, List, [], ◌∷◌, ◌++◌, Result,
  ok, err, unwrap_or, nat_eq, ◌==◌, if◌then◌else◌,
}
use data_sync.Text.{Text, lit, text_eq}
use data_sync.Text.Number.{parse_u64}
use data_sync.Json.{Json}
use data_sync.Jwt.{Jwt, Claims}
use data_sync.State.{AppState}
use data_sync.State.Rooms.{room_version}
use data_sync.State.Views.{RoomView, room_snapshot}
use data_sync.Auth.{validate_jwt_claims, allowed_containers}
use data_sync.Hub.{WsHub, Buckets, add_client, remove_client}
use data_sync.Limiter.{allow}
use data_sync.Session.{
  AuthMessage, Received, Outgoing, Opening, check, refuse, quit, handshake, first_message,
  count_failure, count_success, count_opened, count_closed, auth_error, invalid_token, auth_ok,
}
use data_sync.Session.Forwarding.{Round, react}

pub data Phase (Value : Type 0) : Type 0 where
  connecting shaking opening : Phase Value
  -- The first message is refused, or its token is to be checked.
  refusing : Text → Phase Value
  checking : AuthMessage → Phase Value
  -- The token was checked, under the guard `app` for reading, which lives to the end.
  judged : Result Text Claims → Phase Value
  admitted : Claims → Phase Value
  viewed : ℕ → List Text → RoomView Value → Phase Value
  greeting : ℕ → List Text → Outgoing → Phase Value
  joining : ℕ → List Text → Phase Value
  joined serving leaving : ℕ → Text → Phase Value
  left done : Phase Value

-- The server as one session sees it: `others` and `writing` are the guards of other tasks, `mine` is
-- the session's own guard for reading.
pub record Server (Value Sender : Type 0) : Type 0 where
  pub app : AppState Value
  pub hub : WsHub Sender
  pub buckets : Buckets
  pub others : ℕ
  pub writing : Bool
  pub mine : Bool
  pub phase : Phase Value
  pub sent : List Outgoing

-- What happens next: a step of the session, with what comes from outside, or a step of another task.
pub data Action (Value Sender : Type 0) : Type 0 where
  limited : ℕ → Action Value Sender
  shaken : Option Text → Bool → Action Value Sender
  received : Received → Action Value Sender
  read_locked : ℕ → ℕ → Action Value Sender
  write_locked : ℕ → Action Value Sender
  delivered : Bool → Action Value Sender
  hub_locked : Text → Sender → Action Value Sender
  selected : Round Value → Action Value Sender
  other_reads other_stops_reading other_writes other_stops_writing : Action Value Sender
  other_changes : AppState Value → Action Value Sender
  other_uses_hub : WsHub Sender → Buckets → Action Value Sender

-- The arguments of the handler, and `serde_json::from_str` at `AuthMessage`.
pub record Setting : Type 0 where
  pub ip : Text
  pub ws_auth_rate_limit : ℕ
  pub ws_auth_rate_window : ℕ
  pub ws_allowed_origins : List Text
  pub parse : Text → Option AuthMessage

module _ {Value : Type 0} where
  abbrev pub shaken_to : Result (ℕ × Text) (Unit {0}) → Bool → Phase Value
  shaken_to (ok _) true = opening
  shaken_to (ok _) false = done
  shaken_to (err e) accepted = done

  abbrev pub opened_to : Opening → Phase Value
  opened_to (check auth_msg) = checking auth_msg
  opened_to (refuse reason) = refusing reason
  opened_to quit = done

module _ {Value Sender : Type 0} where
  unfoldable pub may_write : Server Value Sender → Bool
  may_write s = not s.writing && s.others == 0 && not s.mine

  -- `return`: the guard is dropped.
  unfoldable pub finish : Server Value Sender → Server Value Sender
  finish s = record s { phase = done; mine = false }

  -- The result of `add_client`.
  abbrev pub joined_to :
      ⦃json : Json Value⦄
      → ℕ
      → Text
      → Server Value Sender
      → Result Text (Unit {0}) × WsHub Sender
      → Server Value Sender
  joined_to room_id client_id s (ok _, hub) = record s {
    hub = hub;
    phase = joined room_id client_id;
  }
  joined_to room_id client_id s (err reason, hub) =
      finish (record s { hub = hub; sent = s.sent ++ auth_error Value reason ∷ [] })

  -- The result of `room_snapshot`.
  abbrev pub viewed_to :
      ⦃json : Json Value⦄
      → ℕ
      → List Text
      → Server Value Sender
      → Option (RoomView Value)
      → Server Value Sender
  viewed_to room_id allowed s none =
      finish (record s { sent = s.sent ++ auth_error Value (lit "room_not_found") ∷ [] })
  viewed_to room_id allowed s (some view) = record s { phase = viewed room_id allowed view }

  -- The result of `claims.room.parse()`.
  unfoldable pub enter :
      ⦃json : Json Value⦄ → Option ℕ → Claims → Server Value Sender → Option (Server Value Sender)
  unfolding finish room_snapshot allowed_containers
  enter none claims s =
      some (finish (record s { sent = s.sent ++ auth_error Value (lit "invalid_room_claim") ∷ [] }))
  enter (some room_id) claims s =
      let allowed = allowed_containers claims in
      if s.writing
      then none
      else some (viewed_to room_id allowed s (room_snapshot s.app room_id allowed))

module _ {Value Sender : Type 0} ⦃json : Json Value⦄ (jwt : Jwt) (setting : Setting) where
  -- A step of the session, where it is not held up.
  unfoldable pub own :
      Phase Value → Action Value Sender → Server Value Sender → Option (Server Value Sender)
  unfolding enter finish may_write
  own connecting (limited now) s =
      let (allowed, buckets) =
        allow s.buckets setting.ip setting.ws_auth_rate_limit setting.ws_auth_rate_window now in
      some (record s { buckets = buckets; phase = if allowed then shaking else done })
  own shaking (shaken origin accepted) s =
      some (record s { phase = shaken_to (handshake setting.ws_allowed_origins origin) accepted })
  own opening (received r) s = some (record s { phase = opened_to (first_message setting.parse r) })
  own (refusing reason) (write_locked _) s =
      if may_write s
      then some (
          finish
            (record s { app = count_failure s.app; sent = s.sent ++ auth_error Value reason ∷ [] }))
      else none
  own (checking auth_msg) (read_locked decoded_at now) s =
      if s.writing
      then none
      else some (record s {
        mine = true;
        phase = judged (validate_jwt_claims jwt s.app decoded_at now auth_msg.jwt);
      })
  own (judged (ok claims)) (write_locked _) s =
      if may_write s
      then some (record s { app = count_success s.app; phase = admitted claims })
      else none
  own (judged (err reason)) (write_locked _) s =
      if may_write s
      then some (
          finish (record s {
            app = count_failure s.app;
            sent = s.sent ++ invalid_token Value reason ∷ [];
          }))
      else none
  own (admitted claims) (read_locked _ _) s = enter (parse_u64 claims.room) claims s
  own (viewed room_id allowed view) (read_locked _ _) s =
      let room_counter = unwrap_or (room_version s.app room_id) 0 in
      if s.writing
      then none
      else some (record s { phase = greeting room_id allowed (auth_ok room_counter view) })
  own (greeting room_id allowed message) (delivered true) s =
      some (record s { sent = s.sent ++ message ∷ []; phase = joining room_id allowed })
  own (greeting room_id allowed message) (delivered false) s = some (finish s)
  own (joining room_id allowed) (hub_locked client_id sender) s = some (
      joined_to room_id client_id s (
        add_client s.hub room_id client_id
          (record { allowed_containers = allowed; sender = sender })))
  own (joined room_id client_id) (write_locked _) s =
      if may_write s
      then some (record s { app = count_opened s.app; phase = serving room_id client_id })
      else none
  own (serving room_id client_id) (selected round) s =
      let (out, on) = react round in
      some (record s {
        sent = s.sent ++ out;
        phase = if on then serving room_id client_id else leaving room_id client_id;
      })
  own (leaving room_id client_id) (hub_locked _ _) s =
      some (record s { hub = remove_client s.hub room_id client_id; phase = left })
  own left (write_locked elapsed_ns) s =
      if may_write s then some (finish (record s { app = count_closed elapsed_ns s.app })) else none
  own phase action s = none

  -- A step of anyone. Another task writes to the application only under a guard for writing.
  unfoldable pub act : Server Value Sender → Action Value Sender → Option (Server Value Sender)
  unfolding own
  act s other_reads = if s.writing then none else some (record s { others = s.others + 1 })
  act s other_stops_reading =
      if s.others == 0 then none else some (record s { others = s.others - 1 })
  act s other_writes = if may_write s then some (record s { writing = true }) else none
  act s other_stops_writing = some (record s { writing = false })
  act s (other_changes app) = if s.writing then some (record s { app = app }) else none
  act s (other_uses_hub hub buckets) = some (record s { hub = hub; buckets = buckets })
  act s action = own s.phase action s

  pub data Reach (s : Server Value Sender) : Server Value Sender → Type 0 where
    here : Reach s s
    next :
        {t u : Server Value Sender}
        → (action : Action Value Sender) → Reach s t
        → act t action ≡ some u
        → Reach s u
