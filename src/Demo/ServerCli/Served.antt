-- ===== src/Demo/ServerCli/Served.antt =====
-- The demo's client and the server's command connection, put together.
use data_sync.Base.{ℕ, ◌≡◌, ◌≤◌, refl, true, false, some, ok, List, [], ◌∷◌, ◌++◌, nat_eq, ap, ◌∙◌}
use data_sync.Text.{Text, lit, text_eq, is_empty, len}
use data_sync.Text.Trim.{trim, trim_end}
use data_sync.Text.Utf8.{IsUnicode}
use data_sync.Json.{Json}
use data_sync.Jwt.{Jwt}
use data_sync.Limiter.{allow}
use data_sync.Hub.{Channel}
use data_sync.Compare.Equal.{constant_time_eq_iff}
use data_sync.Commands.Process.{process_command}
use data_sync.Console.{Limits, Shared, Turn, count_request, count_reply, handle_command_connection}
use data_sync.Reading.{line, max_command_line_len}
use data_sync.Demo.ServerCli.{request, World, send_command}
use data_sync.Demo.ServerCli.Lines.{
  cut, IsOneLine, cut-request, trim_end-newline, trim-newline, nonempty,
}
use data_sync.Demo.ServerCli.Connection.{one_command}

-- The line that a client reads first.
abbrev pub first_answer : List Text → Text
first_answer [] = []
first_answer (answer ∷ more) = answer

send_command-answer :
    (world : World) (number : ℕ) (command_addr api_key cmd resp : Text)
    → world.answer number command_addr (request api_key cmd) ≡ ok (resp ++ lit "\n")
    → send_command world number command_addr api_key cmd ≡ ok (trim_end resp)
unfolding send_command
send_command-answer world number command_addr api_key cmd resp p =
    rw (p, trim_end-newline resp) refl

module _ {Value Sender : Type 0} ⦃json : Json Value⦄ (jwt : Jwt) (channel : Channel Sender Value)
    (limits : Limits) (world : World) where
  -- Where the world answers as the server does that gets the client's text line by line, the client
  -- has the answer of `process_command` to its command, and the server the state after it, with its
  -- counts: for a key and a command of one line each and at most 8191 bytes, the command not blank,
  -- the key (of Unicode) the configured one up to white space around it, a connection that the
  -- limiters admit, and an answer that can be written.
  pub send_command-served :
      (number : ℕ) (command_addr api_key cmd ip : Text) (now now' : ℕ) (turn : Turn)
      (s : Shared Value Sender)
      → IsOneLine api_key
      → IsOneLine cmd
      → len (api_key ++ lit "\n") ≤ max_command_line_len
      → len (cmd ++ lit "\n") ≤ max_command_line_len
      → is_empty (trim cmd) ≡ false
      → IsUnicode (trim api_key)
      → s.app.command_api_key ≡ some (trim api_key)
      → (allow s.commands ip limits.cmd_rate_limit limits.cmd_rate_window now).0 ≡ true
      → (allow s.command_auths ip limits.command_auth_rate_limit limits.command_auth_rate_window
          now').0
        ≡ true
      → turn.written ≡ true
      → let first = api_key ++ lit "\n" in
        let second = cmd ++ lit "\n" in
        let r =
          handle_command_connection jwt channel limits ip now now'
            (line first)
            true
            (record turn { input = line second } ∷ [])
            s in
        let p = process_command jwt turn.clock (count_request s.app) (trim cmd) in
        world.answer number command_addr (request api_key cmd) ≡ ok (first_answer r.0)
        → (cut [] (request api_key cmd) ≡ first ∷ second ∷ [])
          × (send_command world number command_addr api_key cmd ≡ ok (trim_end p.0.0))
          × (r.1.app ≡ count_reply p.0.0 p.1)
  send_command-served number command_addr api_key cmd ip now now' turn s h k short short' full u key
        a b w answer =
      let first = api_key ++ lit "\n" in
      let second = cmd ++ lit "\n" in
      let trim_key : trim first ≡ trim api_key = trim-newline api_key in
      let trim_cmd : trim second ≡ trim cmd = trim-newline cmd in
      let (out, app) =
        one_command jwt channel limits ip now now' turn s first second a b short short'
          (nonempty api_key) (nonempty cmd) (rw trim_cmd full) (rw trim_key key)
          (rw trim_key ((constant_time_eq_iff (trim api_key) (trim api_key) u u).1 refl)) w in
      let answer' = answer ∙ ap (λ x. ok (first_answer x)) out in
      (
        cut-request api_key cmd h k,
        send_command-answer world number command_addr api_key cmd _ (rw trim_cmd at answer'),
        rw trim_cmd at app,
      )
