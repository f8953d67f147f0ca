-- ===== src/Commands/Arguments.antt =====
-- syncpond-server/src/commands.rs: the parts of the arms of `process_command` that read arguments,
-- with their early returns.
pub mod Loop
pub mod Failures
use data_sync.Base.{
  ℕ, suc, zero, ◌≡◌, refl, Bool, true, false, not, Option, none, some, List, [], ◌∷◌, ◌++◌, Result,
  ok, err, ◌>>=◌, ◌>>◌, ok_or, if◌then◌else◌, ltb, length,
}
use data_sync.Text.{Text, lit, len, is_empty}
use data_sync.Text.Trim.{trim, trim_start}
use data_sync.Commands.Token.{take_token, parse_room_id_from_remainder}

abbrev pub max_command_container_len : ℕ
max_command_container_len = 256

abbrev pub max_command_key_len : ℕ
max_command_key_len = 256

unfoldable pub validate_container_name : Text → Result Text (Unit {0})
unfolding len
validate_container_name name =
    if ltb max_command_container_len (len name)
    then err (lit "ERROR container_name_too_long")
    else ok tt

unfoldable pub validate_key_name : Text → Result Text (Unit {0})
unfolding len
validate_key_name key =
    if ltb max_command_key_len (len key) then err (lit "ERROR key_too_long") else ok tt

-- `if !rest.trim().is_empty() { return "ERROR extra_arguments" }`.
unfoldable pub no_more : Text → Result Text (Unit {0})
unfolding trim
no_more rest = if is_empty (trim rest) then ok tt else err (lit "ERROR extra_arguments")

-- A room id and nothing more.
unfoldable pub room_only : Text → Result Text ℕ
unfolding parse_room_id_from_remainder no_more
room_only remainder = do
  (room_id, rest) ← parse_room_id_from_remainder remainder
  no_more rest
  ok room_id

-- A room id, a container and a key, and what follows them.
unfoldable pub room_key : Text → Result Text (ℕ × Text × Text × Text)
unfolding parse_room_id_from_remainder take_token validate_container_name validate_key_name
room_key remainder = do
  (room_id, rest) ← parse_room_id_from_remainder remainder
  (container, rest1) ← take_token rest
  validate_container_name container
  (key, rest2) ← take_token rest1
  validate_key_name key
  ok (room_id, container, key, rest2)

unfoldable pub key_only : Text → Result Text (ℕ × Text × Text)
unfolding room_key no_more
key_only remainder = do
  (room_id, container, key, rest) ← room_key remainder
  no_more rest
  ok (room_id, container, key)

-- One token and nothing more.
unfoldable pub token_only : Text → Result Text Text
unfolding take_token no_more
token_only remainder = do (token, rest) ← take_token remainder; no_more rest; ok token

-- The text of the value of SET.
unfoldable pub value_text : Text → Result Text Text
unfolding trim_start
value_text rest =
    let value_json = trim_start rest in
    if is_empty value_json then err (lit "ERROR missing_value") else ok value_json

-- The `while` loop of TOKEN.GEN. Each round takes at least a character, so that one round more
-- than there are characters is enough.
unfoldable pub token_loop : ℕ → Text → List Text → Result Text (List Text)
unfolding trim take_token
token_loop zero leftover containers = ok containers
token_loop (suc fuel) leftover containers =
    let more = take_token leftover >>= λ (tok, rem). token_loop fuel rem (containers ++ tok ∷ []) in
    if is_empty (trim leftover) then ok containers else more

unfoldable pub all_tokens : Text → Result Text (List Text)
unfolding token_loop
all_tokens leftover = token_loop (suc (length leftover)) leftover []

unfoldable pub room_tokens : Text → Result Text (ℕ × List Text)
unfolding parse_room_id_from_remainder all_tokens
room_tokens remainder = do
  (room_id, rest) ← parse_room_id_from_remainder remainder
  containers ← all_tokens rest
  ok (room_id, containers)
