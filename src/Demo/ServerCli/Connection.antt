-- ===== src/Demo/ServerCli/Connection.antt =====
-- A command connection with one command.
use data_sync.Base.{
  ℕ, ◌≡◌, ◌≤◌, refl, Bool, true, false, some, List, [], ◌∷◌, ◌++◌, arith, nat_eq, ap, ◌∙◌,
}
use data_sync.Text.{Text, lit, text_eq, is_empty, len}
use data_sync.Text.Trim.{trim}
use data_sync.Json.{Json}
use data_sync.Jwt.{Jwt}
use data_sync.Limiter.{allow}
use data_sync.Hub.{Channel}
use data_sync.Compare.{constant_time_eq}
use data_sync.Commands.Process.{process_command}
use data_sync.Console.{
  Limits, Shared, Turn, count_request, count_reply, run_command, on_line, serve_lines, check_key,
  on_key, handle_command_connection,
}
use data_sync.Reading.{line, max_command_line_len, read_line_with_limit}
use data_sync.Console.Replies.{app-run_command}

module _ {Value Sender : Type 0} ⦃json : Json Value⦄ (jwt : Jwt) (channel : Channel Sender Value)
    (limits : Limits) where
  on_key-line :
      (written : Bool) (text : Text) (turns : List Turn) (s : Shared Value Sender)
      → is_empty text ≡ false
      → on_key jwt channel limits written (some text) turns s
        ≡ check_key jwt channel limits written (trim text) s.app.command_api_key turns s
  unfolding on_key
  on_key-line written [] turns s h = absurd cc
  on_key-line written (c ∷ cs) turns s h = refl

  on_line-line :
      (turn : Turn) (text : Text) (s : Shared Value Sender)
      → is_empty text ≡ false
      → is_empty (trim text) ≡ false
      → turn.written ≡ true
      → let r = run_command jwt channel limits turn (trim text) s in
        on_line jwt channel limits turn (some text) s ≡ ((r.0 ++ lit "\n") ∷ [], r.1, true)
  unfolding on_line
  on_line-line turn [] s h full w = absurd cc
  on_line-line turn (c ∷ cs) s h full w = rw (full, w) refl

  read_line-short :
      (text : Text) → len text ≤ max_command_line_len → read_line_with_limit (line text) ≡ some text
  unfolding read_line_with_limit
  read_line-short text short = ground (arith, short)

  serve_one :
      (turn : Turn) (text : Text) (s : Shared Value Sender)
      → len text ≤ max_command_line_len
      → is_empty text ≡ false
      → is_empty (trim text) ≡ false
      → turn.written ≡ true
      → let turn' = record turn { input = line text } in
        let r = run_command jwt channel limits turn' (trim text) s in
        serve_lines jwt channel limits (turn' ∷ []) s ≡ ((r.0 ++ lit "\n") ∷ [], r.1)
  unfolding serve_lines
  serve_one turn text s short full full' w =
      rw
        (
          read_line-short text short,
          on_line-line (record turn { input = line text }) text s full full' w,
        )
        refl

  check_own_key :
      (key : Text) (turns : List Turn) (s : Shared Value Sender)
      → constant_time_eq key key ≡ true
      → check_key jwt channel limits true key (some key) turns s
        ≡ serve_lines jwt channel limits turns s
  unfolding check_key
  check_own_key key turns s same = rw same refl

  -- A connection whose two lines are the key and a command.
  pub one_command :
      (ip : Text) (now now' : ℕ) (turn : Turn) (s : Shared Value Sender) (first second : Text)
      → (allow s.commands ip limits.cmd_rate_limit limits.cmd_rate_window now).0 ≡ true
      → (allow s.command_auths ip limits.command_auth_rate_limit limits.command_auth_rate_window
          now').0
        ≡ true
      → len first ≤ max_command_line_len
      → len second ≤ max_command_line_len
      → is_empty first ≡ false
      → is_empty second ≡ false
      → is_empty (trim second) ≡ false
      → s.app.command_api_key ≡ some (trim first)
      → constant_time_eq (trim first) (trim first) ≡ true
      → turn.written ≡ true
      → let p = process_command jwt turn.clock (count_request s.app) (trim second) in
        let r =
          handle_command_connection jwt channel limits ip now now'
            (line first)
            true
            (record turn { input = line second } ∷ [])
            s in
        (r.0 ≡ (p.0.0 ++ lit "\n") ∷ []) × (r.1.app ≡ count_reply p.0.0 p.1)
  unfolding handle_command_connection
  one_command ip now now' turn s first second a b short short' full full' full'' key same w =
      let commands = (allow s.commands ip limits.cmd_rate_limit limits.cmd_rate_window now).1 in
      let command_auths =
        (allow s.command_auths ip limits.command_auth_rate_limit limits.command_auth_rate_window
          now').1 in
      let s' = record s { commands = commands; command_auths = command_auths } in
      let turn' = record turn { input = line second } in
      let r = run_command jwt channel limits turn' (trim second) s' in
      let served : serve_lines jwt channel limits (turn' ∷ []) s' ≡ ((r.0 ++ lit "\n") ∷ [], r.1) =
        serve_one turn second s' short' full' full'' w in
      let keyed : on_key jwt channel limits true (some first) (turn' ∷ []) s'
          ≡ ((r.0 ++ lit "\n") ∷ [], r.1) =
        on_key-line true first (turn' ∷ []) s' full
        ∙ ap (λ o. check_key jwt channel limits true (trim first) o (turn' ∷ []) s') key
        ∙ check_own_key (trim first) (turn' ∷ []) s' same
        ∙ served in
      let all : handle_command_connection jwt channel limits ip now now' (line first) true
            (turn' ∷ []) s
          ≡ ((r.0 ++ lit "\n") ∷ [], r.1) =
        rw (a, b, read_line-short first short) keyed in
      let (text, app) = app-run_command jwt channel limits turn' (trim second) s' in
      (ap (λ x. x.0) all ∙ ap (λ x. (x ++ lit "\n") ∷ []) text, ap (λ x. x.1.app) all ∙ app)
