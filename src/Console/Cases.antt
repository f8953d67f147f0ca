-- ===== src/Console/Cases.antt =====
-- The ways a command connection can go, from its first line on.
use data_sync.Base.{ℕ, Bool, Option, none, some, List, [], ◌∷◌, Bool-cases, inl, inr}
use data_sync.Text.{Text}
use data_sync.Text.Trim.{trim}
use data_sync.Json.{Json}
use data_sync.Jwt.{Jwt}
use data_sync.Limiter.{allow}
use data_sync.Hub.{Buckets, Channel}
use data_sync.Compare.{constant_time_eq}
use data_sync.Console.{
  Limits, Shared, Turn, count_auth_failure, serve_lines, reject, check_key, on_key,
  handle_command_connection,
}
use data_sync.Reading.{Input, read_line_with_limit}

module _ {Value Sender : Type 0} ⦃json : Json Value⦄ (jwt : Jwt) (channel : Channel Sender Value)
    (limits : Limits) (written : Bool) (turns : List Turn) where
  check_key-cases :
      (P : Shared Value Sender → Type 0) (provided_key : Text) (expected : Option Text)
      (s : Shared Value Sender)
      → P (record s { app = count_auth_failure s.app })
      → P (serve_lines jwt channel limits turns s).1
      → P (check_key jwt channel limits written provided_key expected turns s).1
  unfolding check_key reject
  check_key-cases P provided_key none s failed served = failed
  check_key-cases P provided_key (some expected_key) s failed served =
      elim (Bool-cases (constant_time_eq provided_key expected_key)) [
        | inl same ↦ rw same served
        | inr other ↦ rw other failed
      ]

  on_key-cases :
      (P : Shared Value Sender → Type 0) (first : Option Text) (s : Shared Value Sender)
      → P s
      → P (record s { app = count_auth_failure s.app })
      → P (serve_lines jwt channel limits turns s).1
      → P (on_key jwt channel limits written first turns s).1
  unfolding on_key
  on_key-cases P none s same failed served = same
  on_key-cases P (some []) s same failed served = same
  on_key-cases P (some (c ∷ cs)) s same failed served =
      check_key-cases P (trim (c ∷ cs)) s.app.command_api_key s failed served

  -- What holds whether the connection is closed, its key is refused, or its lines are served, holds
  -- after it; the limiters of connections may have changed before that.
  pub connection-cases :
      (P : Shared Value Sender → Type 0) (ip : Text) (now now' : ℕ) (first : Input)
      (s : Shared Value Sender)
      → ((commands command_auths : Buckets)
          → let s' = record s { commands = commands; command_auths = command_auths } in
            P s'
            × P (record s' { app = count_auth_failure s.app })
            × P (serve_lines jwt channel limits turns s').1)
      → P (handle_command_connection jwt channel limits ip now now' first written turns s).1
  unfolding handle_command_connection
  connection-cases P ip now now' first s h =
      let (allowed, commands) =
        allow s.commands ip limits.cmd_rate_limit limits.cmd_rate_window now in
      let (auth_allowed, command_auths) =
        allow s.command_auths ip limits.command_auth_rate_limit limits.command_auth_rate_window
          now' in
      let counted = record s { commands = commands } in
      let s' = record counted { command_auths = command_auths } in
      let (same, failed, served) = h commands command_auths in
      elim (Bool-cases allowed) [
        | inl yes' ↦ elim (Bool-cases auth_allowed) [
          | inl fine ↦
              rw (yes', fine) (on_key-cases P (read_line_with_limit first) s' same failed served)
          | inr full ↦ rw (yes', full) same
        ]
        | inr no' ↦ rw no' (h commands s.command_auths).0
      ]
