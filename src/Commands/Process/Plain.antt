-- ===== src/Commands/Process/Plain.antt =====
-- `process_command` neither reads nor writes the counters of requests, errors and failures.
use data_sync.Base.{ℕ, ◌≡◌, refl, ◌∙◌, List, Result, ok, err, nat_eq, Bool-cases, inl, inr}
use data_sync.Dict.{contains_key}
use data_sync.Text.{Text}
use data_sync.Text.Trim.{trim_start}
use data_sync.Json.{Json}
use data_sync.Jwt.{Jwt}
use data_sync.State.{
  AppState, RoomState, RoomBody, StateError, find_room, store_room, with_room, with_room-found,
  with_room-missing,
}
use data_sync.State.Rooms.{create_room, delete_room, list_rooms, room_version}
use data_sync.State.Fragments.{set_fragment, del_fragment, get_fragment}
use data_sync.State.Transactions.{tx_begin, tx_end, tx_abort}
use data_sync.State.Views.{room_info}
use data_sync.State.Settings.{set_jwt_key}
use data_sync.State.Tokens.{create_room_token}
use data_sync.Commands.Token.{take_token}
use data_sync.Commands.Arguments.{no_more, room_only, key_only, token_only, room_tokens}
use data_sync.Commands.Handlers
use data_sync.Commands.Handlers.{
  Reply, RoomUpdate, respond, finish, show, error_of, set_arguments, key_update, room_update,
  counter_of,
}
use data_sync.Commands.Process.{
  Verb, room_create, room_delete, room_list, room_info as info, set, del, get, version, set_jwtkey,
  tx_begin as begin, tx_end as end, tx_abort as abort, token_gen, unknown, dispatch,
  process_command, verb_of,
}

module _ {Value : Type 0} where
  -- The state without the counters of the command connections.
  unfoldable pub plain_of : AppState Value → AppState Value
  plain_of app = record app {
    total_command_requests = 0;
    command_error_count = 0;
    command_auth_failure = 0;
    invalid_command_count = 0;
  }

  -- An outcome, with the state after it without those counters.
  abbrev pub plain : {A : Type 0} → A × AppState Value → A × AppState Value
  plain (a, app) = (a, plain_of app)

  plain-with_room :
      {A : Type 0} (app : AppState Value) (room_id : ℕ) (body : RoomBody Value A)
      → with_room (plain_of app) room_id body ≡ plain (with_room app room_id body)
  plain-with_room app room_id body = go (find_room app room_id) refl
    where
      same : find_room (plain_of app) room_id ≡ find_room app room_id
      same = unfold find_room plain_of in refl

      go :
          (r : Result StateError (RoomState Value))
          → find_room app room_id ≡ r
          → with_room (plain_of app) room_id body ≡ plain (with_room app room_id body)
      go (err e) p = rw (
        with_room-missing app room_id body p,
        with_room-missing (plain_of app) room_id body (same ∙ p),
      )
      go (ok room) p =
          rw
            (
              with_room-found app room_id body p,
              with_room-found (plain_of app) room_id body (same ∙ p),
            )
            (unfold plain_of store_room in refl)

  plain-delete_room :
      (app : AppState Value) (room_id : ℕ)
      → delete_room (plain_of app) room_id ≡ plain (delete_room app room_id)
  unfolding plain_of delete_room
  plain-delete_room app room_id = elim (Bool-cases (contains_key app.rooms room_id)) [
    | inl there ↦ rw there refl
    | inr gone ↦ rw gone refl
  ]

  plain-respond :
      {A : Type 0} (app : AppState Value) (r : Result Text A)
      (arm arm' : A → Reply Value × AppState Value)
      → ((a : A) → arm' a ≡ plain (arm a))
      → respond (plain_of app) r arm' ≡ plain (respond app r arm)
  plain-respond app (ok a) arm arm' h = h a
  plain-respond app (err e) arm arm' h = refl

  plain-finish :
      (updates : AppState Value → List (RoomUpdate Value))
      (r r' : Result StateError (Unit {0}) × AppState Value)
      → ((app : AppState Value) → updates (plain_of app) ≡ updates app)
      → r' ≡ plain r
      → finish updates r' ≡ plain (finish updates r)
  plain-finish updates (ok _, app) r' h p = rw (p, h app) refl
  plain-finish updates (err e, app) r' h p = rw p refl

  plain-show :
      {A : Type 0} (app : AppState Value) (r r' : Result StateError A) (text : A → Text)
      → r' ≡ r
      → show (plain_of app) r' text ≡ plain (show app r text)
  plain-show app (ok a) r' text p = rw p refl
  plain-show app (err e) r' text p = rw p refl

  counter_of-plain_of :
      (app : AppState Value) (room_id : ℕ)
      → counter_of (plain_of app) room_id ≡ counter_of app room_id
  unfolding counter_of room_version find_room plain_of
  counter_of-plain_of app room_id = refl

module _ {Value : Type 0} ⦃json : Json Value⦄ where
  room-plain_of :
      (room_id : ℕ) (app : AppState Value)
      → room_update room_id (plain_of app) ≡ room_update room_id app
  unfolding room_update
  room-plain_of room_id app = rw (counter_of-plain_of app room_id) refl

  updates-plain_of :
      (room_id : ℕ) (container key : Text) (value : Value) (app : AppState Value)
      → key_update room_id container key value (plain_of app)
        ≡ key_update room_id container key value app
  unfolding key_update
  updates-plain_of room_id container key value app = rw (counter_of-plain_of app room_id) refl

module _ {Value : Type 0} ⦃json : Json Value⦄ (jwt : Jwt) (clock : ℕ) where
  plain-dispatch :
      (verb : Verb) (app : AppState Value) (rest : Text)
      → dispatch jwt clock verb (plain_of app) rest ≡ plain (dispatch jwt clock verb app rest)
  unfolding dispatch create_room list_rooms set_jwt_key room_info find_room get_fragment
      room_version create_room_token set_fragment del_fragment tx_begin tx_end tx_abort plain_of
  plain-dispatch room_create app rest =
      unfold Handlers.room_create in plain-respond app (no_more rest) _ _ (λ _. refl)
  plain-dispatch room_delete app rest =
      unfold Handlers.room_delete in
      plain-respond app (room_only rest) _ _
        (λ id. plain-finish _ (delete_room app id) _ (λ _. refl) (plain-delete_room app id))
  plain-dispatch room_list app rest =
      unfold Handlers.room_list in plain-respond app (no_more rest) _ _ (λ _. refl)
  plain-dispatch info app rest =
      unfold Handlers.info in
      plain-respond app (room_only rest) _ _ (λ id. plain-show app (room_info app id) _ _ refl)
  plain-dispatch set app rest =
      unfold Handlers.set in
      plain-respond app (set_arguments rest) _ _ (λ (id, c, k, v).
        plain-finish _ (set_fragment app id c k v) _ (updates-plain_of id c k v)
          (plain-with_room app id _))
  plain-dispatch del app rest =
      unfold Handlers.del in
      plain-respond app (key_only rest) _ _ (λ (id, c, k).
        plain-finish _ (del_fragment app id c k) _ (updates-plain_of id c k json.null)
          (plain-with_room app id _))
  plain-dispatch get app rest =
      unfold Handlers.get in
      plain-respond app (key_only rest) _ _
        (λ (id, c, k). plain-show app (get_fragment app id c k) _ _ refl)
  plain-dispatch version app rest =
      unfold Handlers.version in
      plain-respond app (room_only rest) _ _ (λ id. plain-show app (room_version app id) _ _ refl)
  plain-dispatch set_jwtkey app rest =
      unfold Handlers.set_jwtkey in plain-respond app (token_only rest) _ _ (λ key. refl)
  plain-dispatch begin app rest =
      unfold Handlers.begin in
      plain-respond app (room_only rest) _ _
        (λ id. plain-finish _ (tx_begin app id) _ (λ _. refl) (plain-with_room app id _))
  plain-dispatch end app rest =
      unfold Handlers.end in
      plain-respond app (room_only rest) _ _
        (λ id. plain-finish _ (tx_end app id) _ (room-plain_of id) (plain-with_room app id _))
  plain-dispatch abort app rest =
      unfold Handlers.abort in
      plain-respond app (room_only rest) _ _
        (λ id. plain-finish _ (tx_abort app id) _ (λ _. refl) (plain-with_room app id _))
  plain-dispatch token_gen app rest =
      unfold Handlers.token_gen in
      plain-respond app (room_tokens rest) _ _
        (λ (id, names). plain-show app (create_room_token jwt app id names clock) _ _ refl)
  plain-dispatch unknown app rest = refl

  -- Without those counters a line has the same reply and leads to the same state.
  pub process_command-plain_of :
      (app : AppState Value) (line : Text)
      → process_command jwt clock (plain_of app) line ≡ plain (process_command jwt clock app line)
  unfolding process_command
  process_command-plain_of app line =
      plain-respond app (take_token (trim_start line)) _ _
        (λ (cmd, rest). plain-dispatch (verb_of cmd) app rest)
