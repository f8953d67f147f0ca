-- ===== src/Commands/Process/Replies.antt =====
-- The two kinds of replies of `process_command`.
use data_sync.Base.{ℕ, ◌≡◌, refl, true, ◌⊎◌, inl, inr, List, [], Result, ok, err}
use data_sync.Text.{Text, lit, starts_with}
use data_sync.Text.Trim.{trim_start}
use data_sync.Json.{Json}
use data_sync.Jwt.{Jwt}
use data_sync.State.{AppState, StateError}
use data_sync.State.Rooms.{delete_room, room_version}
use data_sync.State.Fragments.{set_fragment, del_fragment, get_fragment}
use data_sync.State.Transactions.{tx_begin, tx_end, tx_abort}
use data_sync.State.Views.{room_info}
use data_sync.State.Tokens.{create_room_token}
use data_sync.State.Run
use data_sync.State.Run.{outcome, after}
use data_sync.State.Failures.{after-err}
use data_sync.Commands.Token.{take_token}
use data_sync.Commands.Arguments.{
  no_more, room_only, room_key, key_only, token_only, value_text, room_tokens,
}
use data_sync.Commands.Arguments.Failures.{
  IsErrorText, Fails, Fails-bind, Fails-take_token, Fails-no_more, Fails-room_only, Fails-room_key,
  Fails-key_only, Fails-token_only, Fails-value_text, Fails-room_tokens,
}
use data_sync.Commands.Handlers
use data_sync.Commands.Handlers.{
  Reply, RoomUpdate, respond, finish, show, error_of, set_arguments, invalid_json,
}
use data_sync.Commands.Process.{
  Verb, room_create, room_delete, room_list, room_info as info, set, del, get, version, set_jwtkey,
  tx_begin as begin, tx_end as end, tx_abort as abort, token_gen, unknown, dispatch,
  process_command, verb_of,
}

error_of-IsErrorText : (e : StateError) → IsErrorText (error_of e)
unfolding error_of starts_with
error_of-IsErrorText e = refl

-- A reply begins with OK, or it begins with ERROR, carries no update, and leaves the state as it
-- was.
abbrev pub IsReply : {Value : Type 0} → AppState Value → Reply Value × AppState Value → Type 0
IsReply app ((text, updates), app') =
    (starts_with text (lit "OK") ≡ true) ⊎ (IsErrorText text × (updates ≡ []) × (app' ≡ app))

module _ {Value : Type 0} where
  IsReply-respond :
      {A : Type 0} (app : AppState Value) (r : Result Text A)
      (arm : A → Reply Value × AppState Value)
      → Fails r
      → ((a : A) → IsReply app (arm a))
      → IsReply app (respond app r arm)
  IsReply-respond app (ok a) arm h harm = harm a
  IsReply-respond app (err e) arm h harm = inr (h, refl, refl)

  IsReply-finish :
      (app : AppState Value) (updates : AppState Value → List (RoomUpdate Value))
      (r : Result StateError (Unit {0}) × AppState Value)
      → ((e : StateError) → r.0 ≡ err e → r.1 ≡ app)
      → IsReply app (finish updates r)
  IsReply-finish app updates (ok _, app') h = inl (unfold starts_with in refl)
  IsReply-finish app updates (err e, app') h = inr (error_of-IsErrorText e, refl, h e refl)

  IsReply-show :
      {A : Type 0} (app : AppState Value) (r : Result StateError A) (text : A → Text)
      → IsReply app (show app r text)
  IsReply-show app (ok a) text = inl (unfold starts_with in refl)
  IsReply-show app (err e) text = inr (error_of-IsErrorText e, refl, refl)

module _ (Value : Type 0) ⦃json : Json Value⦄ where
  Fails-set_arguments : (s : Text) → Fails (set_arguments {Value = Value} s)
  unfolding set_arguments
  Fails-set_arguments s = Fails-bind (room_key s) _ (Fails-room_key s) λ parsed.
      Fails-bind (value_text parsed.3) _ (Fails-value_text parsed.3) λ text.
        Fails-bind (invalid_json (json.from_str text)) _ (json_error (json.from_str text)) (λ _. tt)
    where
      json_error : (r : Result Text Value) → Fails (invalid_json r)
      json_error (ok v) = tt
      json_error (err e) = unfold starts_with in refl

module _ {Value : Type 0} ⦃json : Json Value⦄ (jwt : Jwt) (clock : ℕ) where
  IsReply-dispatch :
      (verb : Verb) (app : AppState Value) (rest : Text)
      → IsReply app (dispatch jwt clock verb app rest)
  unfolding dispatch outcome after starts_with
  IsReply-dispatch room_create app rest =
      unfold Handlers.room_create in
      IsReply-respond app (no_more rest) _ (Fails-no_more rest) (λ _. inl refl)
  IsReply-dispatch room_delete app rest =
      unfold Handlers.room_delete in
      IsReply-respond app (room_only rest) _ (Fails-room_only rest)
        (λ id. IsReply-finish app _ (delete_room app id) (after-err app (Run.delete id)))
  IsReply-dispatch room_list app rest =
      unfold Handlers.room_list in
      IsReply-respond app (no_more rest) _ (Fails-no_more rest) (λ _. inl refl)
  IsReply-dispatch info app rest =
      unfold Handlers.info in
      IsReply-respond app (room_only rest) _ (Fails-room_only rest)
        (λ id. IsReply-show app (room_info app id) _)
  IsReply-dispatch set app rest =
      unfold Handlers.set in
      IsReply-respond app (set_arguments rest) _ (Fails-set_arguments Value rest) (λ (id, c, k, v).
        IsReply-finish app _ (set_fragment app id c k v) (after-err app (Run.set id c k v)))
  IsReply-dispatch del app rest =
      unfold Handlers.del in
      IsReply-respond app (key_only rest) _ (Fails-key_only rest) (λ (id, c, k).
        IsReply-finish app _ (del_fragment app id c k) (after-err app (Run.del id c k)))
  IsReply-dispatch get app rest =
      unfold Handlers.get in
      IsReply-respond app (key_only rest) _ (Fails-key_only rest)
        (λ (id, c, k). IsReply-show app (get_fragment app id c k) _)
  IsReply-dispatch version app rest =
      unfold Handlers.version in
      IsReply-respond app (room_only rest) _ (Fails-room_only rest)
        (λ id. IsReply-show app (room_version app id) _)
  IsReply-dispatch set_jwtkey app rest =
      unfold Handlers.set_jwtkey in
      IsReply-respond app (token_only rest) _ (Fails-token_only rest) (λ _. inl refl)
  IsReply-dispatch begin app rest =
      unfold Handlers.begin in
      IsReply-respond app (room_only rest) _ (Fails-room_only rest)
        (λ id. IsReply-finish app _ (tx_begin app id) (after-err app (Run.begin id)))
  IsReply-dispatch end app rest =
      unfold Handlers.end in
      IsReply-respond app (room_only rest) _ (Fails-room_only rest)
        (λ id. IsReply-finish app _ (tx_end app id) (after-err app (Run.end id)))
  IsReply-dispatch abort app rest =
      unfold Handlers.abort in
      IsReply-respond app (room_only rest) _ (Fails-room_only rest)
        (λ id. IsReply-finish app _ (tx_abort app id) (after-err app (Run.abort id)))
  IsReply-dispatch token_gen app rest =
      unfold Handlers.token_gen in
      IsReply-respond app (room_tokens rest) _ (Fails-room_tokens rest)
        (λ (id, names). IsReply-show app (create_room_token jwt app id names clock) _)
  IsReply-dispatch unknown app rest = inr (refl, refl, refl)

  -- Whatever the line: the reply begins with OK, or it begins with ERROR, and then it sends no
  -- update and leaves the whole state as it was.
  pub process_command-IsReply :
      (app : AppState Value) (line : Text) → IsReply app (process_command jwt clock app line)
  unfolding process_command
  process_command-IsReply app line =
      IsReply-respond app (take_token (trim_start line)) _ (Fails-take_token (trim_start line))
        (λ (cmd, rest). IsReply-dispatch (verb_of cmd) app rest)
