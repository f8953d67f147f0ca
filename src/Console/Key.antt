-- ===== src/Console/Key.antt =====
-- What a connection can do that does not know the key.
use data_sync.Base.{
  ℕ, ◌≡◌, ◌⊎◌, refl, Bool, ltb, Option, none, some, List, [], ◌∷◌, Bool-cases, inl, inr,
}
use data_sync.Text.{Text, lit, len}
use data_sync.Text.Trim.{trim}
use data_sync.Text.Utf8.{IsUnicode}
use data_sync.Json.{Json}
use data_sync.Jwt.{Jwt}
use data_sync.Limiter.{allow}
use data_sync.Hub.{Buckets, Channel}
use data_sync.Compare.{constant_time_eq}
use data_sync.Compare.Equal.{constant_time_eq_iff}
use data_sync.Console.{
  Limits, Shared, Turn, count_auth_failure, reject, check_key, on_key, handle_command_connection,
}
use data_sync.Reading.{max_command_line_len, line, read_line_with_limit}

-- The application, the hub and the limiters of updates are as they were, but for a failure counted,
-- and no more than a refusal is written.
pub record IsRefused {Value Sender : Type 0} (out : List Text) (s s' : Shared Value Sender)
    : Type 0 where
  pub app : (s'.app ≡ s.app) ⊎ (s'.app ≡ count_auth_failure s.app)
  pub hub : s'.hub ≡ s.hub
  pub ws_updates : s'.ws_updates ≡ s.ws_updates
  pub ws_rooms : s'.ws_rooms ≡ s.ws_rooms
  pub written :
      (out ≡ [])
      ⊎ (out ≡ lit "ERROR invalid_api_key\n" ∷ [])
      ⊎ (out ≡ lit "ERROR api_key_not_configured\n" ∷ [])

-- The key that is configured, if any, is not what the first line says.
pub record IsWrong (configured : Option Text) (text : Text) : Type 0 where
  pub provided_IsUnicode : IsUnicode (trim text)
  pub differs : (key : Text) → configured ≡ some key → IsUnicode key × (trim text ≡ key → ⊥)

module _ {Value Sender : Type 0} ⦃json : Json Value⦄ (jwt : Jwt) (channel : Channel Sender Value)
    (limits : Limits) where
  untouched :
      (s : Shared Value Sender) (commands command_auths : Buckets)
      → IsRefused [] s (record s { commands = commands; command_auths = command_auths })
  untouched s commands command_auths = record {
    app = inl refl;
    hub = refl;
    ws_updates = refl;
    ws_rooms = refl;
    written = inl refl;
  }

  check_key-IsRefused :
      (written : Bool) (text : Text) (configured : Option Text) (turns : List Turn)
      (s : Shared Value Sender)
      → IsWrong configured text
      → let r = check_key jwt channel limits written (trim text) configured turns s in
        IsRefused r.0 s r.1
  unfolding check_key reject
  check_key-IsRefused written text none turns s w = record {
    app = inr refl;
    hub = refl;
    ws_updates = refl;
    ws_rooms = refl;
    written = elim (Bool-cases written) [ inl y ↦ rw y (inr (inr refl)) | inr n ↦ rw n (inl refl) ];
  }
  check_key-IsRefused written text (some key) turns s w =
      let (u, other) = w.differs key refl in
      elim (Bool-cases (constant_time_eq (trim text) key)) [
        | inl same ↦
            absurd (other ((constant_time_eq_iff (trim text) key w.provided_IsUnicode u).0 same))
        | inr n ↦ rw n (record {
          app = inr refl;
          hub = refl;
          ws_updates = refl;
          ws_rooms = refl;
          written = elim (Bool-cases written) [
            | inl y ↦ rw y (inr (inl refl))
            | inr n ↦ rw n (inl refl)
          ];
        })
      ]

  on_key-some :
      (written : Bool) (text : Text) (turns : List Turn) (s : Shared Value Sender)
      → IsWrong s.app.command_api_key text
      → let r = on_key jwt channel limits written (some text) turns s in IsRefused r.0 s r.1
  unfolding on_key
  on_key-some written [] turns s w = untouched s s.commands s.command_auths
  on_key-some written (c ∷ cs) turns s w =
      check_key-IsRefused written (c ∷ cs) s.app.command_api_key turns s w

  on_key-IsRefused :
      (written : Bool) (text : Text) (turns : List Turn) (s : Shared Value Sender)
      → IsWrong s.app.command_api_key text
      → let r = on_key jwt channel limits written (read_line_with_limit (line text)) turns s in
        IsRefused r.0 s r.1
  unfolding read_line_with_limit
  on_key-IsRefused written text turns s w =
      elim (Bool-cases (ltb max_command_line_len (len text))) [
        | inl long ↦ rw long (unfold on_key in untouched s s.commands s.command_auths)
        | inr short ↦ rw short (on_key-some written text turns s w)
      ]

  -- A connection whose first line, without the space around it, is not the configured key (all of it
  -- Unicode) changes nothing of the application but the counter of failures, leaves the hub and the
  -- limiters of updates as they are, and is sent a refusal at most, whatever it says later.
  pub handle_command_connection-IsRefused :
      (ip : Text) (now now' : ℕ) (text : Text) (written : Bool) (turns : List Turn)
      (s : Shared Value Sender)
      → IsWrong s.app.command_api_key text
      → let r =
          handle_command_connection jwt channel limits ip now now' (line text) written turns s in
        IsRefused r.0 s r.1
  unfolding handle_command_connection
  handle_command_connection-IsRefused ip now now' text written turns s w =
      let (allowed, commands) =
        allow s.commands ip limits.cmd_rate_limit limits.cmd_rate_window now in
      let (auth_allowed, command_auths) =
        allow s.command_auths ip limits.command_auth_rate_limit limits.command_auth_rate_window
          now' in
      let counted = record s { commands = commands } in
      let s' = record counted { command_auths = command_auths } in
      elim (Bool-cases allowed) [
        | inl yes' ↦ elim (Bool-cases auth_allowed) [
          | inl fine ↦
              let r = on_key-IsRefused written text turns s' w in
              rw (yes', fine)
                (record {
                  app = r.app;
                  hub = r.hub;
                  ws_updates = r.ws_updates;
                  ws_rooms = r.ws_rooms;
                  written = r.written;
                })
          | inr full ↦ rw (yes', full) (untouched s commands command_auths)
        ]
        | inr no' ↦ rw no' (untouched s commands s.command_auths)
      ]
