-- ===== src/Config/Accepted.antt =====
-- Which configurations start the servers, and with what.
use data_sync.Base.{
  ℕ, ◌*◌, ◌≡◌, refl, ◌↔◌, Bool, true, false, not, ◌&&◌, Option, none, some, [], Result, ok, err, ap,
  sym, subst, Bool-cases, Option-cases, inl, inr,
}
use data_sync.Text.{Text, lit, is_empty}
use data_sync.Text.Trim.{trim}
use data_sync.State.{AppState, new}
use data_sync.State.Settings.{
  set_command_api_key, set_jwt_key, set_jwt_issuer, set_jwt_audience, set_jwt_ttl,
}
use data_sync.Config.{SyncpondConfig, Start, or_default, set_some, base_state, address, configure}

-- A setting is what the configuration says, or else the default.
abbrev pub chosen : {A : Type 0} → Option A → A → A
chosen (some given) default = given
chosen none default = default

-- Nanoseconds in a second.
abbrev pub nanos : ℕ
nanos = 1000000000

-- The settings for tokens, and the key, in a state that is new otherwise.
unfoldable pub settings_of : {Value : Type 0} → SyncpondConfig → AppState Value
settings_of config = record new {
  command_api_key = some config.command_api_key;
  jwt_key = config.jwt_key;
  jwt_issuer = config.jwt_issuer;
  jwt_audience = config.jwt_audience;
  jwt_ttl_seconds = chosen config.jwt_ttl_seconds 3600;
}

module _ {Value : Type 0} where
  -- A setter that is called for a value that is there writes the option into a new field.
  abbrev with_key : Text → Option Text → AppState Value
  with_key key k = record new { command_api_key = some key; jwt_key = k }

  abbrev with_issuer : Text → Option Text → Option Text → AppState Value
  with_issuer key k i = record (with_key key k) { jwt_issuer = i }

  abbrev with_audience : Text → Option Text → Option Text → Option Text → AppState Value
  with_audience key k i a = record (with_issuer key k i) { jwt_audience = a }

  set_some-set_jwt_key :
      (key : Text) (k : Option Text)
      → set_some set_jwt_key k (record new { command_api_key = some key }) ≡ with_key key k
  unfolding set_jwt_key new
  set_some-set_jwt_key key none = refl
  set_some-set_jwt_key key (some k) = refl

  set_some-set_jwt_issuer :
      (key : Text) (k i : Option Text)
      → set_some set_jwt_issuer i (with_key key k) ≡ with_issuer key k i
  unfolding set_jwt_issuer new
  set_some-set_jwt_issuer key k none = refl
  set_some-set_jwt_issuer key k (some i) = refl

  set_some-set_jwt_audience :
      (key : Text) (k i a : Option Text)
      → set_some set_jwt_audience a (with_issuer key k i) ≡ with_audience key k i a
  unfolding set_jwt_audience new
  set_some-set_jwt_audience key k i none = refl
  set_some-set_jwt_audience key k i (some a) = refl

  set_some-set_jwt_ttl :
      (key : Text) (k i a : Option Text) (t : Option ℕ)
      → set_some set_jwt_ttl t (with_audience key k i a)
        ≡ record (with_audience key k i a) { jwt_ttl_seconds = or_default t 3600 }
  unfolding set_jwt_ttl new
  set_some-set_jwt_ttl key k i a none = refl
  set_some-set_jwt_ttl key k i a (some t) = refl

  base_state-new :
      (config : SyncpondConfig)
      → base_state config
          (record (new {Value = Value}) { command_api_key = some config.command_api_key })
        ≡ settings_of config
  unfolding base_state settings_of
  base_state-new config =
      rw
        (
          set_some-set_jwt_key config.command_api_key config.jwt_key,
          set_some-set_jwt_issuer config.command_api_key config.jwt_key config.jwt_issuer,
          set_some-set_jwt_audience config.command_api_key config.jwt_key config.jwt_issuer
              config.jwt_audience,
        )
        (set_some-set_jwt_ttl config.command_api_key config.jwt_key config.jwt_issuer
          config.jwt_audience config.jwt_ttl_seconds)

err_ok : {E A : Type 0} {e : E} {a : A} → err e ≡ ok a → ⊥
err_ok p = cc

ok_injective : {E A : Type 0} {a b : A} → ◌≡◌ {A = Result E A} (ok a) (ok b) → a ≡ b
ok_injective p = cc

module _ {SocketAddr Value : Type 0} (parse : Text → Option SocketAddr)
    (is_loopback : SocketAddr → Bool) where
  pub record IsAccepted (config : SyncpondConfig) (start : Start SocketAddr Value) : Type 0 where
    pub key : is_empty (trim config.command_api_key) ≡ false
    pub tls : chosen config.require_tls false ≡ false
    pub ws_addr : parse (chosen config.ws_addr (lit "127.0.0.1:8080")) ≡ some start.ws_addr
    pub command_addr :
        parse (chosen config.command_addr (lit "127.0.0.1:9090")) ≡ some start.command_addr
    pub health_addr :
        parse (chosen config.health_addr (lit "127.0.0.1:7070")) ≡ some start.health_addr
    pub loopback :
        (chosen config.health_bind_loopback_only true && not (is_loopback start.health_addr))
        ≡ false
    pub settings : start ≡ record {
      app = settings_of config;
      limits = record {
        cmd_rate_limit = chosen config.command_rate_limit 120;
        cmd_rate_window = chosen config.command_rate_window_secs 60 * nanos;
        command_auth_rate_limit = chosen config.command_auth_rate_limit 5;
        command_auth_rate_window = chosen config.command_auth_rate_window_secs 60 * nanos;
        ws_update_rate_limit = chosen config.ws_update_rate_limit 240;
        ws_update_rate_window = chosen config.ws_update_rate_window_secs 60 * nanos;
        ws_room_rate_limit = chosen config.ws_room_rate_limit 1000;
        ws_room_rate_window = chosen config.ws_room_rate_window_secs 60 * nanos;
      };
      ws_auth_rate_limit = chosen config.ws_auth_rate_limit 10;
      ws_auth_rate_window = chosen config.ws_auth_rate_window_secs 60 * nanos;
      ws_allowed_origins = chosen config.ws_allowed_origins [];
      ws_addr = start.ws_addr;
      command_addr = start.command_addr;
      health_addr = start.health_addr;
      health_bind_loopback_only = chosen config.health_bind_loopback_only true;
    }

  configure-IsAccepted :
      (config : SyncpondConfig) (start : Start SocketAddr Value)
      → configure parse is_loopback config ≡ ok start
      → IsAccepted config start
  unfolding configure set_command_api_key address
  configure-IsAccepted config start p =
      let loopback_only = or_default config.health_bind_loopback_only true in
      elim (Bool-cases (is_empty (trim config.command_api_key))) [
        | inl blank ↦ absurd (err_ok (rw blank at p))
        | inr key ↦ elim (Bool-cases (or_default config.require_tls false)) [
          | inl on ↦ absurd (err_ok (rw (key, on) at p))
          | inr tls ↦
              elim (Option-cases (parse (or_default config.ws_addr (lit "127.0.0.1:8080")))) [
                | inl bad ↦ absurd (err_ok (rw (key, tls, bad) at p))
                | inr (ws, ws_p) ↦
                    elim (Option-cases
                      (parse (or_default config.command_addr (lit "127.0.0.1:9090")))) [
                        | inl bad ↦ absurd (err_ok (rw (key, tls, ws_p, bad) at p))
                        | inr (command, command_p) ↦
                            elim (Option-cases
                              (parse (or_default config.health_addr (lit "127.0.0.1:7070")))) [
                                | inl bad ↦
                                    absurd (err_ok (rw (key, tls, ws_p, command_p, bad) at p))
                                | inr (health, health_p) ↦
                                    elim (Bool-cases (loopback_only && not (is_loopback health))) [
                                      | inl far ↦ absurd (
                                          err_ok
                                            (rw (key, tls, ws_p, command_p, health_p, far) at p))
                                      | inr near ↦
                                          subst (IsAccepted config)
                                            (ok_injective (
                                              rw
                                                (
                                                  key,
                                                  tls,
                                                  ws_p,
                                                  command_p,
                                                  health_p,
                                                  near,
                                                  base_state-new {Value = Value} config,
                                                )
                                                at p))
                                            (record {
                                              key = key;
                                              tls = tls;
                                              ws_addr = ws_p;
                                              command_addr = command_p;
                                              health_addr = health_p;
                                              loopback = near;
                                              settings = refl;
                                            })
                                    ]
                              ]
                      ]
              ]
        ]
      ]

  IsAccepted-configure :
      (config : SyncpondConfig) (start : Start SocketAddr Value)
      → IsAccepted config start
      → configure parse is_loopback config ≡ ok start
  unfolding configure set_command_api_key address
  IsAccepted-configure config start a =
      rw (a.key, a.tls, a.ws_addr, a.command_addr, a.health_addr, a.loopback)
        (ap ok (rw (base_state-new {Value = Value} config) (sym a.settings)))

  -- The servers are started exactly when the key is not blank, TLS is not asked for, the three
  -- addresses (or their defaults) can be read, and the health address is a loopback where it must be;
  -- then with the settings of the configuration, or their defaults, in a state that is new otherwise.
  pub configure_iff :
      (config : SyncpondConfig) (start : Start SocketAddr Value)
      → (configure parse is_loopback config ≡ ok start) ↔ IsAccepted config start
  configure_iff config start =
      (configure-IsAccepted config start, IsAccepted-configure config start)
