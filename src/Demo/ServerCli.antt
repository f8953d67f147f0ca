-- ===== src/Demo/ServerCli.antt =====
-- demo/server-cli/src/main.rs: a client of the command socket. The command line is what clap has
-- parsed; the file system, the connection to the server and the standard input come from outside.
pub mod Lines
pub mod Connection
pub mod Served
use data_sync.Base.{
  ℕ, Bool, true, false, ◌&&◌, ◌||◌, Option, none, some, List, [], ◌∷◌, ◌++◌, Result, ok, err,
  nat_eq, if◌then◌else◌, ◌==◌, ◌+◌, ◌>>=◌, ◌>>◌, ok_or, require, leb, not,
}
use data_sync.Text.{Text, lit, text_eq, is_empty}
use data_sync.Text.Trim.{trim, trim_end}
use data_sync.Text.Number.{print_u64}

pub record CliConfig : Type 0 where
  pub command_api_key : Text
  pub ws_addr : Text
  pub command_addr : Text
  pub jwt_key : Option Text

abbrev pub default_config : CliConfig
default_config = record {
  command_api_key = lit "change-me";
  ws_addr = lit "127.0.0.1:8080";
  command_addr = lit "127.0.0.1:9090";
  jwt_key = none;
}

-- The options that the subcommands with a connection share.
pub record Options : Type 0 where
  pub config : Option Text
  pub command_addr : Option Text
  pub api_key : Option Text

pub data Subcommand : Type 0 where
  init : Option Text → Subcommand
  send : Text → Options → Subcommand
  token : ℕ → List Text → Options → Subcommand
  interactive : Options → Subcommand

abbrev pub given_or : Option Text → Text → Text
given_or none d = d
given_or (some a) d = a

-- What `send_command` writes to the server.
unfoldable pub request : Text → Text → Text
request api_key cmd = api_key ++ (lit "\n" ++ (cmd ++ lit "\n"))

-- `join(" ")`.
unfoldable pub join : List Text → Text
join [] = []
join (name ∷ []) = name
join (name ∷ more ∷ names) = name ++ (b' ' ∷ join (more ∷ names))

unfoldable pub token_command : ℕ → List Text → Text
unfolding join print_u64
token_command room_id [] = lit "TOKEN.GEN " ++ print_u64 room_id
token_command room_id (name ∷ names) =
    lit "TOKEN.GEN " ++ (print_u64 room_id ++ (b' ' ∷ join (name ∷ names)))

-- `eq_ignore_ascii_case` to a text in lower case.
unfoldable pub lower : ℕ → ℕ
lower c = if leb b'A' c && leb c b'Z' then c + 32 else c

unfoldable pub is_word : Text → Text → Bool
unfolding lower
is_word [] [] = true
is_word (c ∷ s) [] = false
is_word [] (d ∷ word) = false
is_word (c ∷ s) (d ∷ word) = lower c == d && is_word s word

-- The world of the program: the files, with their configurations where they can be read and parsed,
-- and the line that a server at an address answers the request of a number with, where it is reached.
pub record World : Type 0 where
  pub exists : Text → Bool
  pub load_config : Text → Result Text CliConfig
  pub write_config : Text → CliConfig → Result Text (Unit {0})
  pub answer : ℕ → Text → Text → Result Text Text

-- `send_command`: the answer without the white space at its end.
unfoldable pub send_command : World → ℕ → Text → Text → Text → Result Text Text
unfolding request trim_end
send_command world number command_addr api_key cmd = do
  response ← world.answer number command_addr (request api_key cmd)
  ok (trim_end response)

-- What is printed, and the error that the program ends with, if any.
abbrev pub Printed : Type 0
Printed = List Text × Option Text

abbrev pub print : Result Text Text → Printed
print (ok line) = (line ∷ [], none)
print (err e) = ([], some e)

-- An answer in the shell, and the rest of it.
abbrev pub print_before : Result Text Text → Printed → Printed
print_before (ok response) (lines, e) = ((lit "=> " ++ response) ∷ lines, e)
print_before (err e) later = ([], some e)

-- The lines of the standard input, of which one that cannot be read ends the program.
unfoldable pub interactive_mode : World → ℕ → Text → Text → List (Result Text Text) → Printed
unfolding send_command trim is_word
interactive_mode world number command_addr api_key [] = ([], none)
interactive_mode world number command_addr api_key (err e ∷ lines) = ([], some e)
interactive_mode world number command_addr api_key (ok line ∷ lines) =
    let later = interactive_mode world number command_addr api_key lines in
    let next = interactive_mode world (number + 1) command_addr api_key lines in
    let trimmed = trim line in
    if is_word trimmed (lit "exit") || is_word trimmed (lit "quit")
    then (lit "closing interactive shell" ∷ [], none)
    else if is_empty trimmed
    then later
    else print_before (send_command world number command_addr api_key trimmed) next

-- What a subcommand with a connection does once its configuration is loaded.
abbrev with_config : World → Options → (Text → Text → Printed) → Printed
with_config world options run =
    elim (world.load_config (given_or options.config (lit "config.yaml"))) [
      | err e ↦ ([], some e)
      | ok config ↦
          run (given_or options.command_addr config.command_addr)
            (given_or options.api_key config.command_api_key)
    ]

-- The result of writing the template.
abbrev on_created : Text → Result Text (Unit {0}) → Printed
on_created path (ok _) = ((lit "created config at " ++ path) ∷ [], none)
on_created path (err e) = ([], some e)

unfoldable pub main : World → List (Result Text Text) → Subcommand → Printed
unfolding send_command interactive_mode token_command
main world input (init config) =
    let config_path = given_or config (lit "config.yaml") in
    if world.exists config_path
    then ([], some (lit "config file already exists: " ++ config_path))
    else on_created config_path (world.write_config config_path default_config)
main world input (send command options) =
    with_config world options (λ addr key. print (send_command world 0 addr key command))
main world input (token room_id containers options) =
    with_config world options
      (λ addr key. print (send_command world 0 addr key (token_command room_id containers)))
main world input (interactive options) = with_config world options (λ addr key.
    let (lines, e) = interactive_mode world 0 addr key input in
    (lit "Entering interactive mode. Type 'exit' or 'quit' to leave." ∷ lines, e))
