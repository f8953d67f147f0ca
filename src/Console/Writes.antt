-- ===== src/Console/Writes.antt =====
-- A SET line of a command connection, from its text to the clients of its room.
use data_sync.Base.{
  ℕ, ◌≡◌, ◌≤◌, ◌<◌, refl, true, false, none, some, [], ◌∷◌, ◌++◌, ok, ap, ◌∙◌, u64_mod,
  if◌then◌else◌, Bool-cases, inl, inr, unwrap_or, Result, err, List,
}
use data_sync.Text.{Text, lit, len, is_whitespace}
use data_sync.Text.Number.{print_u64}
use data_sync.Json.{Json}
use data_sync.Jwt.{Jwt}
use data_sync.State.{StateError, AppState, RoomState, find_room, bump}
use data_sync.State.Fragments.{set_fragment}
use data_sync.State.Fragments.Effects.{IsWritten, set_fragment-IsWritten}
use data_sync.Limiter.{allow}
use data_sync.Hub.{Channel, broadcast_update}
use data_sync.Commands.Handlers.{RoomUpdate, finish, key_update, counter_of}
use data_sync.Commands.Arguments.{max_command_container_len, max_command_key_len}
use data_sync.Commands.Lines.{write_arguments, process_command-write_arguments}
use data_sync.Commands.Process.{process_command}
use data_sync.Console.Replies.{app-send_update}
use data_sync.Console.{Limits, Shared, Turn, count_request, send_update, run_command}

module _ {Value : Type 0} where
  finish-ok :
      (updates : AppState Value → List (RoomUpdate Value))
      (r : Result StateError (Unit {0}) × AppState Value)
      → r.0 ≡ ok tt
      → finish updates r ≡ ((lit "OK", updates r.1), r.1)
  finish-ok updates (ok _, app) p = refl
  finish-ok updates (err e, app) p = absurd (not_ok p)
    where
      not_ok : ◌≡◌ {A = Result StateError (Unit {0})} (err e) (ok tt) → ⊥
      not_ok q = cc

module _ {Value Sender : Type 0} ⦃json : Json Value⦄ (jwt : Jwt) (channel : Channel Sender Value)
    (limits : Limits) (turn : Turn) where
  hub-send_update :
      (s : Shared Value Sender) (update : RoomUpdate Value)
      → (send_update jwt channel limits turn s update).hub ≡ (
          if (allow s.ws_rooms
            (lit "room:" ++ print_u64 update.room_id)
            limits.ws_room_rate_limit
            limits.ws_room_rate_window
            turn.room_now).0
          then (broadcast_update channel limits.ws_update_rate_limit limits.ws_update_rate_window
              turn.client_now update s.hub s.ws_updates).0
          else s.hub)
  unfolding send_update
  hub-send_update s update =
      elim (Bool-cases
        (allow s.ws_rooms (lit "room:" ++ print_u64 update.room_id) limits.ws_room_rate_limit
          limits.ws_room_rate_window turn.room_now).0) [ inl yes' ↦ rw yes' | inr no' ↦ rw no' ]

module _ {Value Sender : Type 0} ⦃json : Json Value⦄ (jwt : Jwt) (channel : Channel Sender Value)
    (limits : Limits) (turn : Turn) (s : Shared Value Sender) (room_id : ℕ) (c k : Text) (v : Value)
    {room : RoomState Value} (found : find_room s.app room_id ≡ ok room)
    (closed : room.tx_buffer ≡ none) where
  found' : find_room (count_request s.app) room_id ≡ ok room
  found' = unfold find_room count_request in found

  written :
      IsWritten
        (count_request s.app)
        (set_fragment (count_request s.app) room_id c k v).1
        room_id
        c
        k
        v
        (bump room.room_counter)
  written = (set_fragment-IsWritten (count_request s.app) room_id c k v found' closed).1

  abbrev pub write_update : RoomUpdate Value
  write_update = record {
    room_id = room_id;
    container = c;
    key = k;
    value = some v;
    room_counter = bump room.room_counter;
  }

  finished :
      finish (key_update room_id c k v) (set_fragment (count_request s.app) room_id c k v)
      ≡ ((lit "OK", write_update ∷ []), (set_fragment (count_request s.app) room_id c k v).1)
  unfolding key_update counter_of
  finished =
      let app' = (set_fragment (count_request s.app) room_id c k v).1 in
      finish-ok (key_update room_id c k v) (set_fragment (count_request s.app) room_id c k v)
        (set_fragment-IsWritten (count_request s.app) room_id c k v found' closed).0
      ∙ ap
          (λ n. (
            (
              lit "OK",
              record {
                room_id = room_id;
                container = c;
                key = k;
                value = some v;
                room_counter = unwrap_or n 0;
              }
                  ∷ [],
            ),
            app',
          ))
          written.counter

  -- A SET line with quoted names, for a room that can be taken and has no transaction open, of an id
  -- below 2^64, names of at most 256 bytes and a value that is JSON and does not begin with white
  -- space, is answered with OK, if the answer can be written: a client then reads the value there with
  -- the room's next version, and everything else as before, and the hub broadcasts that value with that
  -- version, unless the limiter of rooms refuses.
  pub run_command-write_arguments :
      (d : ℕ) (text : Text)
      → room_id < u64_mod
      → len c ≤ max_command_container_len
      → len k ≤ max_command_key_len
      → is_whitespace d ≡ false
      → json.from_str (d ∷ text) ≡ ok v
      → turn.written ≡ true
      → let r =
          run_command jwt channel limits turn
            (lit "SET" ++ write_arguments room_id c k (b' ' ∷ d ∷ text))
            s in
        (r.0 ≡ lit "OK")
        × IsWritten (count_request s.app) r.1.app room_id c k v (bump room.room_counter)
        × (r.1.hub ≡ (
            if (allow s.ws_rooms
              (lit "room:" ++ print_u64 room_id)
              limits.ws_room_rate_limit
              limits.ws_room_rate_window
              turn.room_now).0
            then (broadcast_update channel limits.ws_update_rate_limit limits.ws_update_rate_window
                turn.client_now write_update s.hub s.ws_updates).0
            else s.hub))
  unfolding run_command
  run_command-write_arguments d text fits short short' mark p w =
      let line = lit "SET" ++ write_arguments room_id c k (b' ' ∷ d ∷ text) in
      let result : process_command jwt turn.clock (count_request s.app) line
          ≡ ((lit "OK", write_update ∷ []), (set_fragment (count_request s.app) room_id c k v).1) =
        (process_command-write_arguments jwt turn.clock (count_request s.app) room_id c k fits short
            short').0
          d text v mark p
        ∙ finished in
      let s' = record s { app = (set_fragment (count_request s.app) room_id c k v).1 } in
      rw (result, w)
        (
          refl,
          rw (app-send_update jwt channel limits turn s' write_update) written,
          hub-send_update jwt channel limits turn s' write_update,
        )
