-- ===== src/Commands/Process/Effects.antt =====
-- What a line does to the application state.
use data_sync.Base.{ℕ, ◌≡◌, refl, List, Result, ok, err}
use data_sync.Text.{Text}
use data_sync.Text.Trim.{trim_start}
use data_sync.Json.{Json}
use data_sync.Jwt.{Jwt}
use data_sync.State.{AppState, StateError}
use data_sync.State.Rooms.{delete_room, room_version}
use data_sync.State.Fragments.{set_fragment, del_fragment, get_fragment}
use data_sync.State.Transactions.{tx_begin, tx_end, tx_abort}
use data_sync.State.Views.{room_info}
use data_sync.State.Tokens.{create_room_token}
use data_sync.State.Run
use data_sync.State.Run.{Call, after}
use data_sync.Commands.Token.{take_token}
use data_sync.Commands.Arguments.{no_more, room_only, key_only, token_only, room_tokens}
use data_sync.Commands.Handlers
use data_sync.Commands.Handlers.{
  Reply, RoomUpdate, respond, finish, show, error_of, set_arguments, invalid_json,
}
use data_sync.Commands.Process.{
  Verb, room_create, room_delete, room_list, room_info as info, set, del, get, version, set_jwtkey,
  tx_begin as begin, tx_end as end, tx_abort as abort, token_gen, unknown, dispatch,
  process_command, verb_of,
}
use data_sync.State.Settings.{set_jwt_key}

-- A line leaves the application as it was, makes one call, or sets the key of tokens.
pub data IsEffect {Value : Type 0} ⦃json : Json Value⦄ (app app' : AppState Value) : Type 0 where
  nothing : app' ≡ app → IsEffect app app'
  called : (call : Call Value) → app' ≡ after app call → IsEffect app app'
  keyed : (key : Text) → app' ≡ set_jwt_key app key → IsEffect app app'

module _ {Value : Type 0} ⦃json : Json Value⦄ where
  IsEffect-respond :
      {A : Type 0} (app : AppState Value) (r : Result Text A)
      (arm : A → Reply Value × AppState Value)
      → ((a : A) → IsEffect app (arm a).1)
      → IsEffect app (respond app r arm).1
  IsEffect-respond app (ok a) arm h = h a
  IsEffect-respond app (err e) arm h = nothing refl

  IsEffect-finish :
      (app : AppState Value) (updates : AppState Value → List (RoomUpdate Value))
      (r : Result StateError (Unit {0}) × AppState Value)
      → IsEffect app r.1
      → IsEffect app (finish updates r).1
  IsEffect-finish app updates (ok _, app') h = h
  IsEffect-finish app updates (err e, app') h = h

  IsEffect-show :
      {A : Type 0} (app : AppState Value) (r : Result StateError A) (text : A → Text)
      → IsEffect app (show app r text).1
  IsEffect-show app (ok a) text = nothing refl
  IsEffect-show app (err e) text = nothing refl

module _ {Value : Type 0} ⦃json : Json Value⦄ (jwt : Jwt) (clock : ℕ) where
  IsEffect-dispatch :
      (verb : Verb) (app : AppState Value) (rest : Text)
      → IsEffect app (dispatch jwt clock verb app rest).1
  unfolding dispatch after
  IsEffect-dispatch room_create app rest =
      unfold Handlers.room_create in
      IsEffect-respond app (no_more rest) _ (λ _. called Run.create refl)
  IsEffect-dispatch room_delete app rest =
      unfold Handlers.room_delete in
      IsEffect-respond app (room_only rest) _
        (λ id. IsEffect-finish app _ (delete_room app id) (called (Run.delete id) refl))
  IsEffect-dispatch room_list app rest =
      unfold Handlers.room_list in IsEffect-respond app (no_more rest) _ (λ _. nothing refl)
  IsEffect-dispatch info app rest =
      unfold Handlers.info in
      IsEffect-respond app (room_only rest) _ (λ id. IsEffect-show app (room_info app id) _)
  IsEffect-dispatch set app rest =
      unfold Handlers.set in
      IsEffect-respond app (set_arguments rest) _ (λ (id, c, k, v).
        IsEffect-finish app _ (set_fragment app id c k v) (called (Run.set id c k v) refl))
  IsEffect-dispatch del app rest =
      unfold Handlers.del in
      IsEffect-respond app (key_only rest) _ (λ (id, c, k).
        IsEffect-finish app _ (del_fragment app id c k) (called (Run.del id c k) refl))
  IsEffect-dispatch get app rest =
      unfold Handlers.get in
      IsEffect-respond app (key_only rest) _
        (λ (id, c, k). IsEffect-show app (get_fragment app id c k) _)
  IsEffect-dispatch version app rest =
      unfold Handlers.version in
      IsEffect-respond app (room_only rest) _ (λ id. IsEffect-show app (room_version app id) _)
  IsEffect-dispatch set_jwtkey app rest =
      unfold Handlers.set_jwtkey in IsEffect-respond app (token_only rest) _ (λ key. keyed key refl)
  IsEffect-dispatch begin app rest =
      unfold Handlers.begin in
      IsEffect-respond app (room_only rest) _
        (λ id. IsEffect-finish app _ (tx_begin app id) (called (Run.begin id) refl))
  IsEffect-dispatch end app rest =
      unfold Handlers.end in
      IsEffect-respond app (room_only rest) _
        (λ id. IsEffect-finish app _ (tx_end app id) (called (Run.end id) refl))
  IsEffect-dispatch abort app rest =
      unfold Handlers.abort in
      IsEffect-respond app (room_only rest) _
        (λ id. IsEffect-finish app _ (tx_abort app id) (called (Run.abort id) refl))
  IsEffect-dispatch token_gen app rest =
      unfold Handlers.token_gen in
      IsEffect-respond app (room_tokens rest) _
        (λ (id, names). IsEffect-show app (create_room_token jwt app id names clock) _)
  IsEffect-dispatch unknown app rest = nothing refl

  -- A line makes at most one call of the state, and otherwise only sets the key of tokens.
  pub process_command-IsEffect :
      (app : AppState Value) (line : Text) → IsEffect app (process_command jwt clock app line).1
  unfolding process_command
  process_command-IsEffect app line =
      IsEffect-respond app (take_token (trim_start line)) _
        (λ (cmd, rest). IsEffect-dispatch (verb_of cmd) app rest)
