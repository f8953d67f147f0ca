-- ===== src/Commands/Process/Updates.antt =====
-- The updates that `process_command` sends.
use data_sync.Base.{
  All, length, ◌≤◌, arith, ℕ, ◌≡◌, refl, ◌⊎◌, inl, inr, some, List, [], ◌∷◌, Result, ok, err,
}
use data_sync.Text.{Text, lit}
use data_sync.Text.Trim.{trim_start}
use data_sync.Json.{Json}
use data_sync.Jwt.{Jwt}
use data_sync.State.{AppState, StateError}
use data_sync.State.Rooms.{delete_room, room_version}
use data_sync.State.Fragments.{set_fragment, del_fragment, get_fragment}
use data_sync.State.Transactions.{tx_begin, tx_end, tx_abort}
use data_sync.State.Views.{room_info}
use data_sync.State.Tokens.{create_room_token}
use data_sync.Commands.Token.{take_token}
use data_sync.Commands.Arguments.{no_more, room_only, key_only, token_only, room_tokens}
use data_sync.Commands.Handlers
use data_sync.Commands.Handlers.{
  Reply, RoomUpdate, respond, finish, show, set_arguments, key_update,
}
use data_sync.Commands.Process.{
  Verb, room_create, room_delete, room_list, room_info as info, set, del, get, version, set_jwtkey,
  tx_begin as begin, tx_end as end, tx_abort as abort, token_gen, unknown, dispatch,
  process_command, verb_of,
}

-- An update has a value, or it stands for a whole room.
abbrev pub IsTold : {Value : Type 0} → RoomUpdate Value → Type 0
IsTold {Value} update =
    ((v : Value) × (update.value ≡ some v))
    ⊎ ((update.container ≡ lit "*") × (update.key ≡ lit "*"))

-- The updates of a reply are one at most.
abbrev pub IsSent : {Value : Type 0} → List (RoomUpdate Value) → Type 0
IsSent [] = Unit
IsSent (update ∷ []) = IsTold update
IsSent (update ∷ another ∷ updates) = ⊥

module _ {Value : Type 0} where
  pub All-IsSent : (updates : List (RoomUpdate Value)) → IsSent updates → All IsTold updates
  All-IsSent [] h = tt
  All-IsSent (update ∷ []) h = (h, tt)
  All-IsSent (update ∷ another ∷ updates) h = absurd h

  pub length-IsSent : (updates : List (RoomUpdate Value)) → IsSent updates → length updates ≤ 1
  length-IsSent [] h = omega arith
  length-IsSent (update ∷ []) h = omega arith
  length-IsSent (update ∷ another ∷ updates) h = absurd h

  IsSent-respond :
      {A : Type 0} (app : AppState Value) (r : Result Text A)
      (arm : A → Reply Value × AppState Value)
      → ((a : A) → IsSent (arm a).0.1)
      → IsSent (respond app r arm).0.1
  IsSent-respond app (ok a) arm h = h a
  IsSent-respond app (err e) arm h = tt

  IsSent-finish :
      (updates : AppState Value → List (RoomUpdate Value))
      (r : Result StateError (Unit {0}) × AppState Value)
      → ((app : AppState Value) → IsSent (updates app))
      → IsSent (finish updates r).0.1
  IsSent-finish updates (ok _, app') h = h app'
  IsSent-finish updates (err e, app') h = tt

  IsSent-show :
      {A : Type 0} (app : AppState Value) (r : Result StateError A) (text : A → Text)
      → IsSent (show app r text).0.1
  IsSent-show app (ok a) text = tt
  IsSent-show app (err e) text = tt

module _ {Value : Type 0} ⦃json : Json Value⦄ (jwt : Jwt) (clock : ℕ) where
  IsSent-dispatch :
      (verb : Verb) (app : AppState Value) (rest : Text)
      → IsSent (dispatch jwt clock verb app rest).0.1
  unfolding dispatch
  IsSent-dispatch room_create app rest =
      unfold Handlers.room_create in IsSent-respond app (no_more rest) _ (λ _. tt)
  IsSent-dispatch room_delete app rest =
      unfold Handlers.room_delete in
      IsSent-respond app (room_only rest) _ (λ id. IsSent-finish _ (delete_room app id) (λ _. tt))
  IsSent-dispatch room_list app rest =
      unfold Handlers.room_list in IsSent-respond app (no_more rest) _ (λ _. tt)
  IsSent-dispatch info app rest =
      unfold Handlers.info in
      IsSent-respond app (room_only rest) _ (λ id. IsSent-show app (room_info app id) _)
  IsSent-dispatch set app rest =
      unfold Handlers.set key_update in
      IsSent-respond app (set_arguments rest) _
        (λ (id, c, k, v). IsSent-finish _ (set_fragment app id c k v) (λ _. inl (v, refl)))
  IsSent-dispatch del app rest =
      unfold Handlers.del key_update in
      IsSent-respond app (key_only rest) _
        (λ (id, c, k). IsSent-finish _ (del_fragment app id c k) (λ _. inl (json.null, refl)))
  IsSent-dispatch get app rest =
      unfold Handlers.get in
      IsSent-respond app (key_only rest) _
        (λ (id, c, k). IsSent-show app (get_fragment app id c k) _)
  IsSent-dispatch version app rest =
      unfold Handlers.version in
      IsSent-respond app (room_only rest) _ (λ id. IsSent-show app (room_version app id) _)
  IsSent-dispatch set_jwtkey app rest =
      unfold Handlers.set_jwtkey in IsSent-respond app (token_only rest) _ (λ _. tt)
  IsSent-dispatch begin app rest =
      unfold Handlers.begin in
      IsSent-respond app (room_only rest) _ (λ id. IsSent-finish _ (tx_begin app id) (λ _. tt))
  IsSent-dispatch end app rest =
      unfold Handlers.end Handlers.room_update in
      IsSent-respond app (room_only rest) _
        (λ id. IsSent-finish _ (tx_end app id) (λ _. inr (refl, refl)))
  IsSent-dispatch abort app rest =
      unfold Handlers.abort in
      IsSent-respond app (room_only rest) _ (λ id. IsSent-finish _ (tx_abort app id) (λ _. tt))
  IsSent-dispatch token_gen app rest =
      unfold Handlers.token_gen in
      IsSent-respond app (room_tokens rest) _
        (λ (id, names). IsSent-show app (create_room_token jwt app id names clock) _)
  IsSent-dispatch unknown app rest = tt

  -- A command sends one update at most, which has a value, a deletion's too, or stands for a whole room.
  pub process_command-IsSent :
      (app : AppState Value) (line : Text) → IsSent (process_command jwt clock app line).0.1
  unfolding process_command
  process_command-IsSent app line =
      IsSent-respond app (take_token (trim_start line)) _
        (λ (cmd, rest). IsSent-dispatch (verb_of cmd) app rest)
