-- ===== src/Commands/Process.antt =====
-- syncpond-server/src/commands.rs: `process_command`.
pub mod Replies
pub mod Effects
pub mod Kept
pub mod Updates
pub mod Plain
use data_sync.Base.{
  ℕ, Bool, true, false, Option, none, some, List, [], ◌∷◌, Result, ok, err, if◌then◌else◌, ◌==◌,
}
use data_sync.Text.{Text, lit, text_eq}
use data_sync.Text.Trim.{trim_start}
use data_sync.Json.{Json}
use data_sync.Jwt.{Jwt}
use data_sync.State.{AppState}
use data_sync.Commands.Token.{take_token}
use data_sync.Commands.Handlers
use data_sync.Commands.Handlers.{Reply, respond}

-- The strings of the `match`.
pub data Verb : Type 0 where
  room_create room_delete room_list room_info : Verb
  set del get version set_jwtkey tx_begin tx_end tx_abort token_gen : Verb
  unknown : Verb

unfoldable pub verb_of : Text → Verb
unfolding text_eq
verb_of cmd =
    if cmd == lit "ROOM.CREATE"
    then room_create
    else if cmd == lit "ROOM.DELETE"
    then room_delete
    else if cmd == lit "ROOM.LIST"
    then room_list
    else if cmd == lit "ROOM.INFO"
    then room_info
    else if cmd == lit "SET"
    then set
    else if cmd == lit "DEL"
    then del
    else if cmd == lit "GET"
    then get
    else if cmd == lit "VERSION"
    then version
    else if cmd == lit "SET.JWTKEY"
    then set_jwtkey
    else if cmd == lit "TX.BEGIN"
    then tx_begin
    else if cmd == lit "TX.END"
    then tx_end
    else if cmd == lit "TX.ABORT"
    then tx_abort
    else if cmd == lit "TOKEN.GEN"
    then token_gen
    else unknown

module _ {Value : Type 0} ⦃json : Json Value⦄ (jwt : Jwt) (clock : ℕ) where
  unfoldable pub dispatch : Verb → AppState Value → Text → Reply Value × AppState Value
  dispatch room_create = Handlers.room_create
  dispatch room_delete = Handlers.room_delete
  dispatch room_list = Handlers.room_list
  dispatch room_info = Handlers.info
  dispatch set = Handlers.set
  dispatch del = Handlers.del
  dispatch get = Handlers.get
  dispatch version = Handlers.version
  dispatch set_jwtkey = Handlers.set_jwtkey
  dispatch tx_begin = Handlers.begin
  dispatch tx_end = Handlers.end
  dispatch tx_abort = Handlers.abort
  dispatch token_gen = Handlers.token_gen jwt clock
  dispatch unknown = λ app remainder. ((lit "ERROR unknown_command", []), app)

  unfoldable pub process_command : AppState Value → Text → Reply Value × AppState Value
  unfolding dispatch verb_of take_token trim_start
  process_command app line =
      respond app (take_token (trim_start line)) (λ (cmd, rest). dispatch (verb_of cmd) app rest)
