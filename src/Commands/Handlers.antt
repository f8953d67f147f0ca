-- ===== src/Commands/Handlers.antt =====
-- syncpond-server/src/commands.rs: the arms of `process_command`, each on the application state,
-- which it holds locked from its arguments' end to its reply.
use mathlib.Core.List.{map}
use data_sync.Base.{ℕ, Option, none, some, List, [], ◌∷◌, ◌++◌, Result, ok, err, unwrap_or, ◌>>=◌}
use data_sync.Text.{Text, lit, text_eq}
use data_sync.Text.Number.{print_u64}
use data_sync.Json.{Json}
use data_sync.Jwt.{Jwt}
use data_sync.State.{AppState, StateError, display}
use data_sync.State.Rooms.{create_room, delete_room, list_rooms, room_version}
use data_sync.State.Fragments.{set_fragment, del_fragment, get_fragment}
use data_sync.State.Transactions.{tx_begin, tx_end, tx_abort}
use data_sync.State.Views.{room_info, info_json}
use data_sync.State.Settings.{set_jwt_key}
use data_sync.State.Tokens.{create_room_token}
use data_sync.Commands.Arguments.{
  room_only, room_key, key_only, token_only, value_text, room_tokens, no_more,
}

pub record RoomUpdate (Value : Type 0) : Type 0 where
  pub room_id : ℕ
  pub container : Text
  pub key : Text
  pub value : Option Value
  pub room_counter : ℕ

-- The response and the updates of a command.
abbrev pub Reply : Type 0 → Type 0
Reply Value = Text × List (RoomUpdate Value)

unfoldable pub error_of : StateError → Text
unfolding display
error_of e = lit "ERROR " ++ display e

module _ {Value : Type 0} where
  -- `return (err, vec![])` before the state is locked, or the rest of the arm.
  abbrev pub respond :
      {A : Type 0}
      → AppState Value
      → Result Text A
      → (A → Reply Value × AppState Value)
      → Reply Value × AppState Value
  respond app (err e) arm = ((e, []), app)
  respond app (ok a) arm = arm a

  -- The `match` on the result of an operation of the state that returns nothing.
  abbrev pub finish :
      (AppState Value → List (RoomUpdate Value))
      → Result StateError (Unit {0}) × AppState Value
      → Reply Value × AppState Value
  finish updates (ok _, app) = ((lit "OK", updates app), app)
  finish updates (err e, app) = ((error_of e, []), app)

  -- The `match` on the result of an operation that reads.
  abbrev pub show :
      {A : Type 0}
      → AppState Value
      → Result StateError A
      → (A → Text)
      → Reply Value × AppState Value
  show app (ok a) text = ((lit "OK " ++ text a, []), app)
  show app (err e) text = ((error_of e, []), app)

  -- `app.rooms.get(..)...unwrap_or(0)`, and `app.room_version(room_id).unwrap_or(0)`.
  unfoldable pub counter_of : AppState Value → ℕ → ℕ
  unfolding room_version
  counter_of app room_id = unwrap_or (room_version app room_id) 0

  unfoldable pub room_create : AppState Value → Text → Reply Value × AppState Value
  unfolding no_more create_room
  room_create app remainder =
      respond app (no_more remainder)
        (λ _. let (room_id, app') = create_room app in ((lit "OK " ++ print_u64 room_id, []), app'))

  unfoldable pub room_delete : AppState Value → Text → Reply Value × AppState Value
  unfolding room_only delete_room error_of
  room_delete app remainder =
      respond app (room_only remainder) (λ room_id. finish (λ _. []) (delete_room app room_id))

  unfoldable pub version : AppState Value → Text → Reply Value × AppState Value
  unfolding room_only room_version error_of
  version app remainder =
      respond app (room_only remainder) (λ room_id. show app (room_version app room_id) print_u64)

  unfoldable pub set_jwtkey : AppState Value → Text → Reply Value × AppState Value
  unfolding token_only set_jwt_key
  set_jwtkey app remainder =
      respond app (token_only remainder) (λ key. ((lit "OK", []), set_jwt_key app key))

  unfoldable pub begin : AppState Value → Text → Reply Value × AppState Value
  unfolding room_only tx_begin error_of
  begin app remainder =
      respond app (room_only remainder) (λ room_id. finish (λ _. []) (tx_begin app room_id))

  unfoldable pub abort : AppState Value → Text → Reply Value × AppState Value
  unfolding room_only tx_abort error_of
  abort app remainder =
      respond app (room_only remainder) (λ room_id. finish (λ _. []) (tx_abort app room_id))

  -- `clock` is the time at which the token is signed.
  unfoldable pub token_gen : Jwt → ℕ → AppState Value → Text → Reply Value × AppState Value
  unfolding room_tokens create_room_token error_of
  token_gen jwt clock app remainder = respond app (room_tokens remainder) (λ (room_id, containers).
      show app (create_room_token jwt app room_id containers clock) (λ token. token))

module _ {Value : Type 0} ⦃json : Json Value⦄ where
  unfoldable pub room_list : AppState Value → Text → Reply Value × AppState Value
  unfolding no_more list_rooms
  room_list app remainder = respond app (no_more remainder) (λ _.
      ((lit "OK " ++ json.to_string (json.array (map json.number (list_rooms app))), []), app))

  unfoldable pub info : AppState Value → Text → Reply Value × AppState Value
  unfolding room_only room_info info_json error_of
  info app remainder =
      respond app (room_only remainder)
        (λ room_id. show app (room_info app room_id) (λ i. json.to_string (info_json i)))

  -- The update that SET and DEL send.
  unfoldable pub key_update : ℕ → Text → Text → Value → AppState Value → List (RoomUpdate Value)
  unfolding counter_of
  key_update room_id container key value app =
      record {
        room_id = room_id;
        container = container;
        key = key;
        value = some value;
        room_counter = counter_of app room_id;
      }
      ∷ []

  abbrev pub invalid_json : Result Text Value → Result Text Value
  invalid_json (ok v) = ok v
  invalid_json (err e) = err (lit "ERROR invalid_json " ++ e)

  -- The arguments of SET, its value read as JSON.
  unfoldable pub set_arguments : Text → Result Text (ℕ × Text × Text × Value)
  unfolding room_key value_text
  set_arguments remainder = do
    (room_id, container, key, rest) ← room_key remainder
    text ← value_text rest
    value ← invalid_json (json.from_str text)
    ok (room_id, container, key, value)

  unfoldable pub set : AppState Value → Text → Reply Value × AppState Value
  unfolding set_arguments set_fragment key_update error_of
  set app remainder = respond app (set_arguments remainder) (λ (room_id, container, key, value).
      finish (key_update room_id container key value)
        (set_fragment app room_id container key value))

  unfoldable pub del : AppState Value → Text → Reply Value × AppState Value
  unfolding key_only del_fragment key_update error_of
  del app remainder = respond app (key_only remainder) (λ (room_id, container, key).
      finish (key_update room_id container key json.null) (del_fragment app room_id container key))

  unfoldable pub get : AppState Value → Text → Reply Value × AppState Value
  unfolding key_only get_fragment error_of print_u64
  get app remainder = respond app (key_only remainder) (λ (room_id, container, key).
      show app (get_fragment app room_id container key)
        (λ (value, key_version). json.to_string value ++ lit " " ++ print_u64 key_version))

  -- The update that TX.END sends.
  unfoldable pub room_update : ℕ → AppState Value → List (RoomUpdate Value)
  unfolding counter_of
  room_update room_id app =
      record {
        room_id = room_id;
        container = lit "*";
        key = lit "*";
        value = none;
        room_counter = counter_of app room_id;
      }
      ∷ []

  unfoldable pub end : AppState Value → Text → Reply Value × AppState Value
  unfolding room_only tx_end room_update error_of
  end app remainder =
      respond app (room_only remainder)
        (λ room_id. finish (room_update room_id) (tx_end app room_id))
